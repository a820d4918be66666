-- ===== src/Network/Abstract/Steps.antt =====
-- Every step of the shared state is a step of the abstract view.
use kiwi_network_patches.Prelude.{
  ◌≡◌, refl, ◌&&◌, not, ◌==◌, sym, ap, ◌∙◌, subst, inl, inr, true, Option, none, some,
  some-injective, List, ◌∷◌, All, arith, if◌then◌else◌, Bool-cases,
}
use kiwi_network_patches.Prelude.Bytes.{Bytes, AreBytes, is_empty}
use kiwi_network_patches.Platform.Features.{FeatureList, use_dns_https_svcb}
use kiwi_network_patches.Platform.Bytestring.{Cbs, IsCbs}
use kiwi_network_patches.Platform.DnsProtocol.{DnsProtocol}
use kiwi_network_patches.Platform.ResolveContext.{ContextOps, IsContext}
use kiwi_network_patches.Platform.Float.{FloatOps}
use kiwi_network_patches.Platform.LruCache.{LruOps}
use kiwi_network_patches.Dns.Record.{HttpsRecordResult}
use kiwi_network_patches.Dns.Process.{process_https_record}
use kiwi_network_patches.Dns.Process.FirstValid.{
  FirstValid, FirstValid-total, stored, process_records-FirstValid,
}
use kiwi_network_patches.Request.Pipeline.{ech-store_result}
use kiwi_network_patches.Retry.Cache.{CacheEntry}
use kiwi_network_patches.Retry.Monitor.{record_result, reset, clear_all}
use kiwi_network_patches.Retry.Monitor.History
use kiwi_network_patches.Quic.{on_quic_connection_migration_with_ech}
use kiwi_network_patches.Android.{
  ConnectionType, connection_wifi, connection_4g, connection_5g, connection_3g, connection_ethernet,
  connection_other, is_tracked, type_code, Device, enter_network, on_active_network_changed,
  on_network_changed,
}
use kiwi_network_patches.Network.{
  Network, Label, resolved, Step, resolve, retry, report, look_up, drop_config, migrate,
  clear_monitor, clear_cache, move, switch, observe, adjust, check_script, report_vpn,
}
use kiwi_network_patches.Network.Origins.{cleared, monitor-enter_network}
use kiwi_network_patches.Network.Abstract.{
  changes, connection, events, Latest, answered, other_key, no_record, no_config, no_answer,
}

-- The tests of the source say the same.
pub changes-tests :
    (type current : ConnectionType)
    → changes type current ≡ (is_tracked type && not (type_code type == type_code current))
changes-tests connection_wifi connection_wifi = refl
changes-tests connection_wifi connection_4g = refl
changes-tests connection_wifi connection_5g = refl
changes-tests connection_wifi connection_3g = refl
changes-tests connection_wifi connection_ethernet = refl
changes-tests connection_wifi (connection_other n) = ground arith
changes-tests connection_4g connection_wifi = refl
changes-tests connection_4g connection_4g = refl
changes-tests connection_4g connection_5g = refl
changes-tests connection_4g connection_3g = refl
changes-tests connection_4g connection_ethernet = refl
changes-tests connection_4g (connection_other n) = ground arith
changes-tests connection_5g connection_wifi = refl
changes-tests connection_5g connection_4g = refl
changes-tests connection_5g connection_5g = refl
changes-tests connection_5g connection_3g = refl
changes-tests connection_5g connection_ethernet = refl
changes-tests connection_5g (connection_other n) = ground arith
changes-tests connection_3g current = refl
changes-tests connection_ethernet current = refl
changes-tests (connection_other n) current = refl

pub on_network_changed-changes :
    {C K : Type 0} (caches : LruOps C K CacheEntry) (dec : Discrete K) (type : ConnectionType)
    (s : Device C K)
    → on_network_changed caches dec type s
      ≡ (if changes type s.current_connection then cleared caches dec type s else s)
unfolding on_network_changed on_active_network_changed
on_network_changed-changes caches dec type s =
    rw (changes-tests type s.current_connection) (ground arith)

enter_network-changes :
    {C K : Type 0} (type : ConnectionType) (s : Device C K)
    → (enter_network type s).current_connection
      ≡ (if changes type s.current_connection then type else s.current_connection)
unfolding enter_network
enter_network-changes type s = rw (changes-tests type s.current_connection) (ground arith)

module _ {X C N K W : Type 0} (features : FeatureList) (cbs : Cbs) (d : DnsProtocol)
    (contexts : ContextOps X N) (caches : LruOps C K CacheEntry) (floats : FloatOps W)
    (dec : Discrete K) (at_first : ConnectionType) (labels : List (Label N K)) where
  pub Step-connection :
      {s u : Network X C K W} {l : Label N K}
      → Step features cbs d contexts caches floats dec s l u
      → s.device.current_connection ≡ connection at_first labels
      → u.device.current_connection ≡ connection at_first (l ∷ labels)
  Step-connection (resolve nik records bytes run) h = h
  Step-connection (retry now host config env t server) h = h
  Step-connection (report host success) h = h
  Step-connection (look_up now host config) h = h
  Step-connection (drop_config host) h = h
  Step-connection (migrate host) h = h
  Step-connection clear_monitor h = h
  Step-connection clear_cache h = h
  Step-connection {s} (move type) h = ground (arith, enter_network-changes type s.device)
  Step-connection {s} (switch type) h =
      rw (on_network_changed-changes caches dec type s.device, ← h) (ground arith)
  Step-connection (observe e) h = h
  Step-connection (adjust proxy_info config) h = h
  Step-connection (check_script pac_script) h = h
  Step-connection (report_vpn success) h = h

  pub Step-statistics :
      {s u : Network X C K W} {l : Label N K}
      → Step features cbs d contexts caches floats dec s l u
      → s.device.current_connection ≡ connection at_first labels
      → s.device.monitor ≡ History.run dec (events at_first labels)
      → u.device.monitor ≡ History.run dec (events at_first (l ∷ labels))
  unfolding History.run on_quic_connection_migration_with_ech
  Step-statistics (resolve nik records bytes run) at h = h
  Step-statistics (retry now host config env t server) at h = h
  Step-statistics (report host success) at h = ap (record_result dec host success) h
  Step-statistics (look_up now host config) at h = h
  Step-statistics (drop_config host) at h = h
  Step-statistics (migrate host) at h = ap (reset dec host) h
  Step-statistics clear_monitor at h = ap (clear_all dec) h
  Step-statistics clear_cache at h = h
  Step-statistics {s} (move type) at h = monitor-enter_network type s.device ∙ h
  Step-statistics {s} (switch type) at h =
      elim (Bool-cases (changes type (connection at_first labels))) [
        | inl e ↦
            rw (on_network_changed-changes caches dec type s.device, at, e) (ap (clear_all dec) h)
        | inr e ↦ rw (on_network_changed-changes caches dec type s.device, at, e) h
      ]
  Step-statistics (observe e) at h = h
  Step-statistics (adjust proxy_info config) at h = h
  Step-statistics (check_script pac_script) at h = h
  Step-statistics (report_vpn success) at h = h

module _ {X N : Type 0} (features : FeatureList) (cbs : Cbs) (cbs_laws : IsCbs cbs)
    (d : DnsProtocol) (contexts : ContextOps X N) (laws : IsContext contexts)
    (on : features use_dns_https_svcb ≡ true) where
  process-stored :
      (nik : N) (records : List Bytes) (c c' : X)
      → All AreBytes records
      → process_https_record features cbs d contexts nik (some records) c ≡ some c'
      → (o : Option HttpsRecordResult) × FirstValid d records o × (stored contexts nik c o ≡ c')
  unfolding process_https_record
  process-stored nik records c c' bytes h =
      let (o, first) = FirstValid-total d records bytes in
      (
        o,
        first,
        some-injective _ _ (
            sym (process_records-FirstValid features cbs cbs_laws d contexts nik c first)
            ∙ (rw (on, process_https_record) at h)),
      )

  Latest-stored :
      {K : Type 0} {labels : List (Label N K)} (dec : Discrete N) (nik j : N) (records : List Bytes)
      (c : X) (o : Option HttpsRecordResult)
      → FirstValid d records o
      → Latest d j labels (contexts.get_ech_config j c)
      → Latest d j
          (resolved nik records ∷ labels)
          (contexts.get_ech_config j (stored contexts nik c o))
  Latest-stored dec nik j records c none first h = no_record first h
  Latest-stored {labels} dec nik j records c (some r) first h =
      let stores = ech-store_result contexts laws nik r j c in
      elim (Bool-cases (is_empty r.ech_config)) [
        | inl e ↦
            subst (Latest d j (resolved nik records ∷ labels)) (sym (stores ∙ rw e))
              (no_config r first e h)
        | inr e ↦ elim (dec j nik) [
          | no other ↦
              subst (Latest d j (resolved nik records ∷ labels))
                (sym (stores ∙ rw e (laws.ech_set_ne nik j r.ech_config c other)))
                (other_key other h)
          | yes same ↦
              subst (Latest d j (resolved nik records ∷ labels))
                (sym (stores ∙ rw (e, same) (laws.ech_set nik r.ech_config c)))
                (answered r same first e)
        ]
      ]

  pub Step-latest :
      {C K W : Type 0} (caches : LruOps C K CacheEntry) (floats : FloatOps W) (dec : Discrete K)
      (dec_nik : Discrete N) (labels : List (Label N K)) (j : N) {s u : Network X C K W}
      {l : Label N K}
      → Step features cbs d contexts caches floats dec s l u
      → Latest d j labels (contexts.get_ech_config j s.context)
      → Latest d j (l ∷ labels) (contexts.get_ech_config j u.context)
  Step-latest caches floats dec dec_nik labels j {s} (resolve nik records {c} bytes run) h =
      let (o, first, same) = process-stored nik records s.context c bytes run in
      subst (λ x. Latest d j (resolved nik records ∷ labels) (contexts.get_ech_config j x)) same
        (Latest-stored dec_nik nik j records s.context o first h)
  Step-latest caches floats dec dec_nik labels j (retry now host config env t server) h =
      no_answer tt h
  Step-latest caches floats dec dec_nik labels j (report host success) h = no_answer tt h
  Step-latest caches floats dec dec_nik labels j (look_up now host config) h = no_answer tt h
  Step-latest caches floats dec dec_nik labels j (drop_config host) h = no_answer tt h
  Step-latest caches floats dec dec_nik labels j (migrate host) h = no_answer tt h
  Step-latest caches floats dec dec_nik labels j clear_monitor h = no_answer tt h
  Step-latest caches floats dec dec_nik labels j clear_cache h = no_answer tt h
  Step-latest caches floats dec dec_nik labels j (move type) h = no_answer tt h
  Step-latest caches floats dec dec_nik labels j (switch type) h = no_answer tt h
  Step-latest caches floats dec dec_nik labels j (observe e) h = no_answer tt h
  Step-latest caches floats dec dec_nik labels j (adjust proxy_info config) h = no_answer tt h
  Step-latest caches floats dec dec_nik labels j (check_script pac_script) h = no_answer tt h
  Step-latest caches floats dec dec_nik labels j (report_vpn success) h = no_answer tt h
