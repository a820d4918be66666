-- ===== src/Dns/Parser/Meaning.antt =====
-- host_resolver_manager.cc: what the fields of a result say of the SvcParams of a record in
-- ServiceMode.
pub mod Collected
pub mod PerField
pub mod Unique
pub mod Parsed
use kiwi_network_patches.Prelude.{
  ℕ, ◌+◌, ◌*◌, ◌≡◌, Option, none, some, List, [], ◌∷◌, ◌++◌, All, map, if◌then◌else◌, ◌==◌,
}
use kiwi_network_patches.Prelude.Bytes.{Bytes, eqs, text}
use kiwi_network_patches.Prelude.Drain.{encode_all}
use kiwi_network_patches.Prelude.Tlv.{Tlv}
use kiwi_network_patches.Platform.DnsProtocol.{DnsProtocol}
use kiwi_network_patches.Dns.Record.{HttpsRecordResult}
use kiwi_network_patches.Dns.Params.{contains, all_supported}
use kiwi_network_patches.Dns.Params.Alpn.{encode_protocol, FitsByte, Truncated, non_empty}
use kiwi_network_patches.Dns.Params.Hints.{IsPiece, IsRest, piece}
use kiwi_network_patches.Dns.Params.Mandatory.{key_name}

-- The values of the parameters with one key, in order.
abbrev pub values : ℕ → List Tlv → List Bytes
values key [] = []
values key (p ∷ ps) = if p.tag == key then p.value ∷ values key ps else values key ps

-- The last of some values.
abbrev pub last_of : Bytes → List Bytes → Bytes
last_of x [] = x
last_of x (v ∷ vs) = last_of v vs

-- The port of the last value that has two bytes.
abbrev pub last_port : Option ℕ → List Bytes → Option ℕ
last_port x [] = x
last_port x ((hi ∷ lo ∷ _) ∷ vs) = last_port (some (hi * 256 + lo)) vs
last_port x (_ ∷ vs) = last_port x vs

-- The protocols that a value of `alpn` lists, without the empty ones.
abbrev pub ListsProtocols : Bytes → List Bytes → Type 0
ListsProtocols v xs =
    (ps : List Bytes) × (tail : Bytes) × (v ≡ encode_all encode_protocol ps tail)
    × All FitsByte ps
    × Truncated tail
    × (xs ≡ non_empty ps)

-- The pieces of one width that a value lists.
abbrev pub ListsPieces : ℕ → Bytes → List Bytes → Type 0
ListsPieces last v xs =
    (tail : Bytes) × (v ≡ encode_all piece xs tail) × All (IsPiece last) xs × IsRest last tail

-- The names of the keys that a value of `mandatory` lists.
abbrev pub ListsKeys : DnsProtocol → Bytes → List Bytes → Type 0
ListsKeys d v xs = (keys : List Bytes) × ListsPieces 1 v keys × (xs ≡ map (key_name d) keys)

-- What several values list together, in order.
pub data Together (Lists : Bytes → List Bytes → Type 0) : List Bytes → List Bytes → Type 0 where
  no_more : Together Lists [] []
  and_then :
      {v : Bytes} {vs xs ys : List Bytes}
      → Lists v xs
      → Together Lists vs ys
      → Together Lists (v ∷ vs) (xs ++ ys)

-- A result that says what the parameters behind the target name say.
pub record Means (d : DnsProtocol) (target : Bytes) (ps : List Tlv) (r : HttpsRecordResult)
    : Type 0 where
  pub target_name : r.alternative_service ≡ (if eqs target (text ".") then [] else target)
  pub ech_config : r.ech_config ≡ last_of [] (values d.key_ech_config ps)
  pub port : r.port ≡ last_port none (values d.key_port ps)
  pub alpn : Together ListsProtocols (values d.key_alpn ps) r.alpn
  pub ipv4_hints : Together (ListsPieces 3) (values d.key_ipv4_hint ps) r.ipv4_hints
  pub ipv6_hints : Together (ListsPieces 15) (values d.key_ipv6_hint ps) r.ipv6_hints
  pub valid :
      (names : List Bytes) × Together (ListsKeys d) (values d.key_mandatory ps) names
      × ((k : Bytes) → contains r.mandatory_keys k ≡ contains names k)
      × (r.valid ≡ all_supported names)
