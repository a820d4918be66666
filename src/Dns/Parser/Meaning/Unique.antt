-- ===== src/Dns/Parser/Meaning/Unique.antt =====
-- host_resolver_manager.cc: the SvcParams of a record say what the fields of its result are.
use mathlib.Core.Quot
use kiwi_network_patches.Dns.Params.KeySet.{KeySet}
use kiwi_network_patches.Prelude.{
  Option, Bool, ℕ, ◌≡◌, refl, sym, ap, ◌∙◌, List, [], ◌∷◌, ◌++◌, length, All, arith, map,
  take-append, drop-append, length-append,
}
use kiwi_network_patches.Prelude.Bytes.{Bytes}
use kiwi_network_patches.Prelude.Drain.{encode_all}
use kiwi_network_patches.Prelude.Tlv.{Tlv}
use kiwi_network_patches.Platform.DnsProtocol.{DnsProtocol}
use kiwi_network_patches.Dns.Record.{HttpsRecordResult, fresh_result}
use kiwi_network_patches.Dns.Params.{contains, all_supported, parse_alpn_param}
use kiwi_network_patches.Dns.Params.Alpn.{parse_alpn_param-encode}
use kiwi_network_patches.Dns.Params.Hints.{IsPiece, IsRest, piece}
use kiwi_network_patches.Dns.Params.Mandatory.{key_name}
use kiwi_network_patches.Dns.Parser.Meaning.{
  ListsProtocols, ListsPieces, ListsKeys, Together, no_more, and_then, Means,
}

-- A value lists one thing.
abbrev IsFunctional : (Bytes → List Bytes → Type 0) → Type 0
IsFunctional Lists = (v : Bytes) (xs ys : List Bytes) → Lists v xs → Lists v ys → xs ≡ ys

ListsProtocols-reads :
    (v : Bytes) (xs : List Bytes)
    → ListsProtocols v xs
    → (parse_alpn_param v fresh_result).alpn ≡ xs
ListsProtocols-reads v xs (ps, tail, eq, ok, end, e) =
    rw (eq, parse_alpn_param-encode ps tail fresh_result ok end, e)

ListsProtocols-IsFunctional : IsFunctional ListsProtocols
ListsProtocols-IsFunctional v xs ys h k =
    sym (ListsProtocols-reads v xs h) ∙ ListsProtocols-reads v ys k

pieces-same :
    (last : ℕ) (xs ys : List Bytes) (s t : Bytes)
    → All (IsPiece last) xs
    → All (IsPiece last) ys
    → IsRest last s
    → IsRest last t
    → encode_all piece xs s ≡ encode_all piece ys t
    → xs ≡ ys
pieces-same last [] [] s t hx hy hs ht e = refl
pieces-same last [] (y ∷ ys) s t hx hy hs ht e =
    absurd (omega (arith, ap length e, length-append y (encode_all piece ys t), hy.0))
pieces-same last (x ∷ xs) [] s t hx hy hs ht e =
    absurd (omega (arith, ap length e, length-append x (encode_all piece xs s), hx.0))
pieces-same last (x ∷ xs) (y ∷ ys) s t hx hy hs ht e =
    let same : length x ≡ length y = omega (arith, hx.0, hy.0) in
    let first : x ≡ y =
      sym (take-append x (encode_all piece xs s))
      ∙ rw (same, e) (take-append y (encode_all piece ys t)) in
    let rest : encode_all piece xs s ≡ encode_all piece ys t =
      sym (drop-append x (encode_all piece xs s))
      ∙ rw (same, e) (drop-append y (encode_all piece ys t)) in
    ap (λ z. z ∷ xs) first ∙ ap (◌∷◌ y) (pieces-same last xs ys s t hx.1 hy.1 hs ht rest)

ListsPieces-IsFunctional : (last : ℕ) → IsFunctional (ListsPieces last)
ListsPieces-IsFunctional last v xs ys (s, e, hx, hs) (t, f, hy, ht) =
    pieces-same last xs ys s t hx hy hs ht (sym e ∙ f)

ListsKeys-IsFunctional : (d : DnsProtocol) → IsFunctional (ListsKeys d)
ListsKeys-IsFunctional d v xs ys (ks, hk, e) (js, hj, f) =
    e ∙ ap (map (key_name d)) (ListsPieces-IsFunctional 1 v ks js hk hj) ∙ sym f

Together-IsFunctional :
    (Lists : Bytes → List Bytes → Type 0)
    → IsFunctional Lists
    → (vs xs ys : List Bytes) → Together Lists vs xs
    → Together Lists vs ys
    → xs ≡ ys
Together-IsFunctional Lists one [] _ _ no_more no_more = refl
Together-IsFunctional Lists one (v ∷ vs) _ _ (and_then {xs} {ys} h hs)
      (and_then {xs = zs} {ys = us} k ks) =
    ap (λ l. l ++ ys) (one v xs zs h k)
    ∙ ap (λ l. zs ++ l) (Together-IsFunctional Lists one vs ys us hs ks)

-- A result with its keys as a set.
pub record RecordView : Type 0 where
  pub view_ech_config : Bytes
  pub view_alpn : List Bytes
  pub view_ipv4_hints : List Bytes
  pub view_ipv6_hints : List Bytes
  pub view_port : Option ℕ
  pub view_keys : KeySet
  pub view_target : Bytes
  pub view_valid : Bool

abbrev pub view : HttpsRecordResult → RecordView
view r = record {
  view_ech_config = r.ech_config;
  view_alpn = r.alpn;
  view_ipv4_hints = r.ipv4_hints;
  view_ipv6_hints = r.ipv6_hints;
  view_port = r.port;
  view_keys = Quot.mk r.mandatory_keys;
  view_target = r.alternative_service;
  view_valid = r.valid;
}

pub view-Means :
    (d : DnsProtocol) (target : Bytes) (ps : List Tlv) (r r' : HttpsRecordResult)
    → Means d target ps r
    → Means d target ps r'
    → view r ≡ view r'
view-Means d target ps r r' h h' =
    let (names, keys, member, valid) = h.valid in
    let (names', keys', member', valid') = h'.valid in
    let same =
      Together-IsFunctional (ListsKeys d) (ListsKeys-IsFunctional d) _ names names' keys keys' in
    let sets : ◌≡◌ {A = KeySet} (Quot.mk r.mandatory_keys) (Quot.mk r'.mandatory_keys) =
      Quot.sound (λ k. member k ∙ ap (λ l. contains l k) same ∙ sym (member' k)) in
    rw (
      h.ech_config ∙ sym h'.ech_config,
      Together-IsFunctional ListsProtocols ListsProtocols-IsFunctional _ _ _ h.alpn h'.alpn,
      Together-IsFunctional (ListsPieces 3) (ListsPieces-IsFunctional 3) _ _ _ h.ipv4_hints
          h'.ipv4_hints,
      Together-IsFunctional (ListsPieces 15) (ListsPieces-IsFunctional 15) _ _ _ h.ipv6_hints
          h'.ipv6_hints,
      h.port ∙ sym h'.port,
      sets,
      h.target_name ∙ sym h'.target_name,
      valid ∙ ap all_supported same ∙ sym valid',
    )
