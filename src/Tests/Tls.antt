-- ===== src/Tests/Tls.antt =====
-- The set-up of a connection on a list of one ECHConfig.
use kiwi_network_patches.Prelude.{
  ◌≡◌, ◌↔◌, ◌⊎◌, refl, Bool, true, false, not, ◌&&◌, none, some, List, [], ◌∷◌, ◌++◌, All,
  if◌then◌else◌, arith,
}
use kiwi_network_patches.Prelude.Bytes.{Bytes, AreBytes, is_empty, text, u16}
use kiwi_network_patches.Prelude.Drain.{drain, encode_all}
use kiwi_network_patches.Prelude.Tlv.{Tlv, encode_tlv, FitsWire, TlvEnd, few}
use kiwi_network_patches.Platform.Features.{encrypted_client_hello}
use kiwi_network_patches.Platform.BoringSsl.{
  EchResult, keys_new, keys_add, set_ech_keys, set_ech_grease_enabled, record_result,
  failed_fallback, Trace,
}
use kiwi_network_patches.Tls.Config.{SslConfig, compatible, configure_kiwi_ssl_profile}
use kiwi_network_patches.Tls.EchManager.{
  configure_body, configure_ech, apply_keys, enable_ech_grease, retry_abort, retry_retry,
  ech_retry_callback,
}
use kiwi_network_patches.Tls.EchManager.ConfigList.{supported_values, adds}
use kiwi_network_patches.Tls.EchManager.Configure.{
  keys_taken, configure_ech-answer, configure_ech-calls, configure_ech-length_prefixed,
}
use kiwi_network_patches.Tls.EchManager.Retry.{retry_taken, ech_retry_callback-answer}
use kiwi_network_patches.Tls.EchManager.Rounds.{Rounds, ech_retry_callback-Rounds}
use kiwi_network_patches.Tls.Connection.{
  configure_kiwi_ssl, SslInfo, Handshake, analyze_kiwi_ssl_result,
}
use kiwi_network_patches.Tls.Connection.Profiles.{common_calls, configure_kiwi_ssl-profile}
use kiwi_network_patches.Platform.BoringSsl.{set_permute_extensions}
use kiwi_network_patches.Tls.Connection.Result.{Occurs, analyze_kiwi_ssl_result_iff}
use kiwi_network_patches.Quic.{configure_ech_for_quic_session}
use kiwi_network_patches.Quic.SameAsTcp.{quic-configure_ech}
use kiwi_network_patches.Mojo.{serialize_ssl_config, deserialize_ssl_config}
use kiwi_network_patches.Mojo.Transfer.{configure_kiwi_ssl-transfer}
use kiwi_network_patches.Tests.World.{
  list_cbs, list_cbs-IsCbs, all_features, willing, unwilling, are_bytes-AreBytes,
}

abbrev ech_list : Bytes
ech_list = 254 ∷ 13 ∷ 0 ∷ 3 ∷ 1 ∷ 2 ∷ 3 ∷ []

ech_list_bytes : AreBytes ech_list
ech_list_bytes = are_bytes-AreBytes ech_list refl

abbrev success_trace : Trace
success_trace = set_ech_keys ∷ keys_add (1 ∷ 2 ∷ 3 ∷ []) ∷ keys_new ∷ []

abbrev failure_trace : Trace
failure_trace = record_result failed_fallback ∷ set_ech_grease_enabled ∷ success_trace

succeeds :
    configure_ech list_cbs (willing none) all_features ech_list [] ≡ some (true, success_trace)
unfolding configure_ech drain configure_body apply_keys
succeeds = refl

fails : configure_ech list_cbs unwilling all_features ech_list [] ≡ some (false, failure_trace)
unfolding configure_ech drain configure_body apply_keys enable_ech_grease
fails = refl

configure_ech-answer_example :
    (configs : List Tlv) × (tail : Bytes) × (ech_list ≡ encode_all encode_tlv configs tail)
    × All FitsWire configs
    × TlvEnd tail
    × (t' : Trace) × (configure_ech list_cbs (willing none) all_features ech_list []
        ≡ some (
          all_features encrypted_client_hello
              && (not (is_empty ech_list)
                  && ((willing none).accepts [] keys_new && keys_taken (willing none) configs [])),
          t',
        ))
configure_ech-answer_example =
    configure_ech-answer all_features list_cbs list_cbs-IsCbs (willing none) ech_list []
      ech_list_bytes

configure_ech-calls_example :
    ((configs : List Tlv) × (tail : Bytes) × (ech_list ≡ encode_all encode_tlv configs tail)
      × All FitsWire configs
      × TlvEnd tail
      × (configure_ech list_cbs (willing none) all_features ech_list []
          ≡ some (true, set_ech_keys ∷ adds (supported_values configs) (keys_new ∷ [])))
      × (keys_taken (willing none) configs [] ≡ true))
    ⊎ ((r : EchResult) × (t' : Trace) × (configure_ech list_cbs
            (willing none)
            all_features
            ech_list
            []
          ≡ some (false, record_result r ∷ set_ech_grease_enabled ∷ t')))
configure_ech-calls_example =
    configure_ech-calls all_features list_cbs list_cbs-IsCbs (willing none) ech_list []
      ech_list_bytes refl refl

-- The list in its documented form, with its length in front.
configure_ech-length_prefixed_example :
    (t' : Trace) × (configure_ech list_cbs
        (willing none)
        all_features
        (u16 7 ++ (u16 0xFE0D ++ (0 ∷ 3 ∷ 1 ∷ 2 ∷ 3 ∷ [])))
        []
      ≡ some (false, t'))
configure_ech-length_prefixed_example =
    configure_ech-length_prefixed all_features list_cbs list_cbs-IsCbs (willing none)
      (0 ∷ 3 ∷ 1 ∷ 2 ∷ 3 ∷ []) [] (omega arith)

ech_retry_callback-answer_example :
    (configs : List Tlv) × (tail : Bytes) × (ech_list ≡ encode_all encode_tlv configs tail)
    × All FitsWire configs
    × TlvEnd tail
    × (t' : Trace) × (ech_retry_callback list_cbs (willing (some ech_list)) []
        ≡ some (
          if not (is_empty ech_list) && retry_taken (willing (some ech_list)) configs []
              then retry_retry
              else retry_abort,
          t',
        ))
ech_retry_callback-answer_example =
    ech_retry_callback-answer list_cbs list_cbs-IsCbs (willing (some ech_list)) ech_list []
      ech_list_bytes refl

abbrev config : SslConfig
config = record {
  ech_config_list = ech_list;
  ech_grease_enabled = false;
  tls13_early_data_enabled = false;
  tls13_key_update_interval = 7;
  pq_key_exchange_preference = [];
}

configure_kiwi_ssl-profile_example :
    (b : Bool) × (t1 : Trace) × (configure_ech list_cbs (willing none) all_features ech_list []
      ≡ some (b, t1))
    × (configure_kiwi_ssl list_cbs
          (willing none)
          all_features
          (configure_kiwi_ssl_profile config compatible)
          []
        ≡ some (set_permute_extensions ∷ (common_calls ++ t1)))
configure_kiwi_ssl-profile_example =
    configure_kiwi_ssl-profile all_features list_cbs list_cbs-IsCbs (willing none) config compatible
      [] ech_list_bytes
      (record {
        ech = refl;
        kyber = refl;
        early_data = refl;
        permutation = refl;
        key_update = refl;
      })
      (λ t1. refl)

abbrev no_info : SslInfo
no_info = record { ech_accepted = false; post_quantum_key_exchange = false }

abbrev handshake : Handshake
handshake = record { accepted = true; group_name = some (text "X25519") }

analyze_kiwi_ssl_result_iff_example :
    (((analyze_kiwi_ssl_result (some handshake) no_info).post_quantum_key_exchange ≡ true)
      ↔ (Occurs (text "Kyber") (text "X25519") ⊎ (false ≡ true)))
    × ((analyze_kiwi_ssl_result (some handshake) no_info).ech_accepted ≡ true)
analyze_kiwi_ssl_result_iff_example = analyze_kiwi_ssl_result_iff true (text "X25519") no_info

quic-configure_ech_example :
    (b : Bool) × (t'' : Trace) × (configure_ech list_cbs unwilling all_features ech_list []
      ≡ some (b, if b then t'' else record_result failed_fallback ∷ set_ech_grease_enabled ∷ t''))
    × (configure_ech_for_quic_session list_cbs unwilling all_features ech_list []
        ≡ some (if b then set_ech_grease_enabled ∷ t'' else t''))
quic-configure_ech_example =
    quic-configure_ech list_cbs unwilling all_features ech_list [] list_cbs-IsCbs ech_list_bytes
      refl refl refl

abbrev target : SslConfig
target = record config { ech_config_list = []; tls13_early_data_enabled = true }

configure_kiwi_ssl-transfer_example :
    configure_kiwi_ssl list_cbs
      (willing none)
      all_features
      (deserialize_ssl_config (some (serialize_ssl_config all_features config)) target)
      []
    ≡ configure_kiwi_ssl list_cbs (willing none) all_features config []
configure_kiwi_ssl-transfer_example =
    configure_kiwi_ssl-transfer list_cbs (willing none) all_features config target [] refl

abbrev item : Tlv
item = record { tag = 0xFE0D; value = 1 ∷ 2 ∷ [] }

ech_retry_callback-Rounds_example :
    Rounds list_cbs (willing (some (encode_all encode_tlv (item ∷ []) []))) 1000 []
ech_retry_callback-Rounds_example =
    ech_retry_callback-Rounds list_cbs list_cbs-IsCbs
      (willing (some (encode_all encode_tlv (item ∷ []) []))) item [] [] 1000 []
      (
        record {
          tag_fits = omega arith;
          length_fits = omega arith;
          value_bytes = are_bytes-AreBytes (1 ∷ 2 ∷ []) refl;
        },
        tt,
      )
      (few (omega arith)) (λ t. refl) (λ t c. refl)
