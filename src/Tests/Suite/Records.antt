-- ===== src/Tests/Suite/Records.antt =====
-- unittests/https_svcb_parser_test.cc and the record of full_pipeline_integration_test.cc.
use kiwi_network_patches.Prelude.{ℕ, ◌≡◌, refl, true, some, List, [], ◌∷◌, ◌++◌}
use kiwi_network_patches.Prelude.Bytes.{Bytes, u16, text}
use kiwi_network_patches.Prelude.Drain.{drain, encode_all}
use kiwi_network_patches.Prelude.Scan.{scan}
use kiwi_network_patches.Prelude.Tlv.{Tlv, encode_tlv}
use kiwi_network_patches.Dns.Record.{HttpsRecordResult, fresh_result}
use kiwi_network_patches.Dns.Params.{
  parse_alpn_param, parse_ech_config_param, parse_ipv4_hint_param, check_mandatory_params,
  all_supported,
}
use kiwi_network_patches.Dns.Params.Alpn.{encode_protocol}
use kiwi_network_patches.Dns.Parser.{
  parse, read_service_name, read_labels, parse_params, parse_one_param, apply_param,
}
use kiwi_network_patches.Dns.Parser.ServiceName.{encode_label}
use kiwi_network_patches.Tests.World.{list_cbs, protocol}

-- `BuildHttpsRecord`, with the labels of the target; the root has none.
abbrev build_https_record : ℕ → List Bytes → List Tlv → Bytes
build_https_record priority labels params =
    u16 priority ++ encode_all encode_label labels (0 ∷ encode_all encode_tlv params [])

abbrev build_alpn_value : List Bytes → Bytes
build_alpn_value protocols = encode_all encode_protocol protocols []

abbrev param : ℕ → Bytes → Tlv
param key value = record { tag = key; value = value }

-- The result for a target that is the root, less the parameters.
abbrev valid_result : HttpsRecordResult
valid_result = record fresh_result { valid = true }

ech_config_extraction :
    parse list_cbs protocol (build_https_record 1 [] (param 5 (text "AAAAECHCONFIGAAAA") ∷ []))
    ≡ some (record valid_result { ech_config = text "AAAAECHCONFIGAAAA" })
unfolding parse read_service_name read_labels parse_params drain parse_one_param apply_param
    parse_ech_config_param check_mandatory_params all_supported
ech_config_extraction = refl

alpn_parsing :
    parse list_cbs protocol (
      build_https_record 1 []
        (param 1 (build_alpn_value (text "h3" ∷ text "h2" ∷ text "http/1.1" ∷ [])) ∷ []))
    ≡ some (record valid_result { alpn = text "h3" ∷ text "h2" ∷ text "http/1.1" ∷ [] })
unfolding parse read_service_name read_labels parse_params drain parse_one_param apply_param scan
    parse_alpn_param check_mandatory_params all_supported
alpn_parsing = refl

ipv4_hint :
    parse list_cbs protocol
      (build_https_record 1 [] (param 4 (1 ∷ 2 ∷ 3 ∷ 4 ∷ 5 ∷ 6 ∷ 7 ∷ 8 ∷ []) ∷ []))
    ≡ some (record valid_result { ipv4_hints = (1 ∷ 2 ∷ 3 ∷ 4 ∷ []) ∷ (5 ∷ 6 ∷ 7 ∷ 8 ∷ []) ∷ [] })
unfolding parse read_service_name read_labels parse_params drain parse_one_param apply_param scan
    parse_ipv4_hint_param check_mandatory_params all_supported
ipv4_hint = refl

priority_handling :
    parse list_cbs protocol
      (build_https_record 0 (text "alias" ∷ text "example" ∷ text "com" ∷ []) [])
    ≡ some fresh_result
unfolding parse read_service_name read_labels
priority_handling = refl

-- `DnsHttpsToEchToSsl`, with the keys 1, 5 and 4 in this order.
dns_https_to_ech_to_ssl :
    parse list_cbs protocol (
      build_https_record 1 [] (
        param 1 (build_alpn_value (text "h3" ∷ text "h2" ∷ []))
        ∷ param 5 (text "AAAAECHCONFIGTESTDATA")
        ∷ param 4 (1 ∷ 2 ∷ 3 ∷ 4 ∷ [])
        ∷ []))
    ≡ some (record valid_result {
      ech_config = text "AAAAECHCONFIGTESTDATA";
      alpn = text "h3" ∷ text "h2" ∷ [];
      ipv4_hints = (1 ∷ 2 ∷ 3 ∷ 4 ∷ []) ∷ [];
    })
unfolding parse read_service_name read_labels parse_params drain parse_one_param apply_param scan
    parse_alpn_param parse_ech_config_param parse_ipv4_hint_param check_mandatory_params
    all_supported
dns_https_to_ech_to_ssl = refl
