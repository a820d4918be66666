-- ===== src/Tests/Dns.antt =====
-- The record parser and the resolver's hook on a record for "www" at priority 1, with the protocol
-- "h3", the port 443 and an ECH configuration.
use kiwi_network_patches.Prelude.{
  ◌++◌, ◌≡◌, ◌↔◌, refl, Bool, true, Option, some, List, [], ◌∷◌, arith,
}
use kiwi_network_patches.Prelude.Bytes.{Bytes, AreBytes, text}
use kiwi_network_patches.Prelude.Drain.{drain, encode_all}
use kiwi_network_patches.Prelude.Scan.{scan}
use kiwi_network_patches.Platform.DnsProtocol.{HasDistinctKeys}
use kiwi_network_patches.Dns.Record.{HttpsRecordResult, fresh_result}
use kiwi_network_patches.Dns.Params.{
  parse_alpn_param, parse_ech_config_param, parse_port_param, all_supported, check_mandatory_params,
}
use kiwi_network_patches.Dns.Parser.{
  read_labels, read_service_name, apply_param, parse_one_param, parse_params, parse,
}
use kiwi_network_patches.Dns.Parser.ServiceName.{encode_label, dotted}
use kiwi_network_patches.Dns.Parser.Print.{print, print_params, parse-print}
use kiwi_network_patches.Dns.Parser.Meaning.{Means}
use kiwi_network_patches.Dns.Parser.Meaning.Unique.{view}
use kiwi_network_patches.Dns.Parser.Meaning.Parsed.{parse-Means}
use kiwi_network_patches.Dns.Parser.Grammar.{Parses, parse_iff, parse_total}
use kiwi_network_patches.Dns.Params.Fields.{HasFields}
use kiwi_network_patches.Dns.Parser.Shape.{IsChecked, parse-HasFields}
use kiwi_network_patches.Prelude.Tlv.{Tlv, encode_tlv, few}
use kiwi_network_patches.Dns.Process.{process_https_record, should_upgrade_http_to_https}
use kiwi_network_patches.Dns.Process.Stores.{StoresFirst}
use kiwi_network_patches.Dns.Process.FirstValid.{FirstValid, found, process_https_record-FirstValid}
use kiwi_network_patches.Dns.Process.Upgrade.{Decides, should_upgrade_http_to_https-Decides}
use kiwi_network_patches.Tests.World.{
  Stored, list_cbs, list_cbs-IsCbs, protocol, protocol-IsAddressCheck, all_features, contexts,
  nothing_stored, are_bytes-AreBytes, fit_wire-FitsWire,
}

abbrev pub raw : Bytes
raw =
    0 ∷ 1 ∷ 3 ∷ 119 ∷ 119 ∷ 119 ∷ 0 ∷ 0 ∷ 1 ∷ 0 ∷ 3 ∷ 2 ∷ 104 ∷ 51 ∷ 0 ∷ 3 ∷ 0 ∷ 2 ∷ 1 ∷ 187 ∷ 0 ∷ 5
    ∷ 0 ∷ 2 ∷ 10 ∷ 20 ∷ []

abbrev pub www : HttpsRecordResult
www = record fresh_result {
  ech_config = 10 ∷ 20 ∷ [];
  alpn = text "h3" ∷ [];
  port = some 443;
  alternative_service = text "www";
  valid = true;
}

pub raw_bytes : AreBytes raw
raw_bytes = are_bytes-AreBytes raw refl

-- The parser on the record, by computation.
pub parse-raw : parse list_cbs protocol raw ≡ some www
unfolding parse read_service_name read_labels parse_params drain parse_one_param apply_param scan
    parse_alpn_param parse_ech_config_param parse_port_param check_mandatory_params all_supported
parse-raw = refl

pub raw-FirstValid : FirstValid protocol (raw ∷ []) (some www)
raw-FirstValid =
    found www ((parse_iff list_cbs list_cbs-IsCbs protocol raw www raw_bytes).0 parse-raw) refl

parse_iff_example : (parse list_cbs protocol raw ≡ some www) ↔ Parses protocol raw www
parse_iff_example = parse_iff list_cbs list_cbs-IsCbs protocol raw www raw_bytes

parse_total_example :
    (r : HttpsRecordResult) × (parse list_cbs protocol raw ≡ some r) × Parses protocol raw r
parse_total_example = parse_total list_cbs list_cbs-IsCbs protocol raw raw_bytes

parse-HasFields_example :
    (r : HttpsRecordResult) × (parse list_cbs protocol raw ≡ some r) × HasFields r × IsChecked r
parse-HasFields_example =
    parse-HasFields protocol protocol-IsAddressCheck list_cbs list_cbs-IsCbs raw raw_bytes

abbrev target_labels : List Bytes
target_labels = text "www" ∷ []

protocol-HasDistinctKeys : HasDistinctKeys protocol
protocol-HasDistinctKeys = record {
  alpn_mandatory = λ e. absurd (omega arith);
  ech_mandatory = λ e. absurd (omega arith);
  ech_alpn = λ e. absurd (omega arith);
  ipv4_mandatory = λ e. absurd (omega arith);
  ipv4_alpn = λ e. absurd (omega arith);
  ipv4_ech = λ e. absurd (omega arith);
  ipv6_mandatory = λ e. absurd (omega arith);
  ipv6_alpn = λ e. absurd (omega arith);
  ipv6_ech = λ e. absurd (omega arith);
  ipv6_ipv4 = λ e. absurd (omega arith);
  port_mandatory = λ e. absurd (omega arith);
  port_alpn = λ e. absurd (omega arith);
  port_ech = λ e. absurd (omega arith);
  port_ipv4 = λ e. absurd (omega arith);
  port_ipv6 = λ e. absurd (omega arith);
}

abbrev v4 : Bytes
v4 = 10 ∷ 0 ∷ 0 ∷ 1 ∷ []

abbrev v6 : Bytes
v6 = v4 ++ (v4 ++ (v4 ++ v4))

-- A result with every field but mandatory keys.
abbrev full : HttpsRecordResult
full = record www { ipv4_hints = v4 ∷ v4 ∷ []; ipv6_hints = v6 ∷ [] }

full-HasFields : HasFields full
full-HasFields = record {
  ech_fits = omega arith;
  ech_bytes = are_bytes-AreBytes (10 ∷ 20 ∷ []) refl;
  protocols = ((omega arith, omega arith), tt);
  v4_addresses = (refl, (refl, tt));
  v6_addresses = (refl, tt);
  port_fits = omega arith;
  keys_distinct = tt;
}

parse-print_example : parse list_cbs protocol (print protocol 0 1 target_labels full) ≡ some full
parse-print_example =
    parse-print list_cbs list_cbs-IsCbs protocol protocol-IsAddressCheck protocol-HasDistinctKeys 0
      1 target_labels full (omega arith) ((omega arith, omega arith), tt) full-HasFields
      (fit_wire-FitsWire (print_params protocol full) refl) refl refl refl

process_https_record-FirstValid_example :
    (o : Option HttpsRecordResult) × FirstValid protocol ([] ∷ raw ∷ []) o
    × (c' : Stored) × (process_https_record all_features list_cbs protocol contexts 7
          (some ([] ∷ raw ∷ []))
          nothing_stored
        ≡ some c')
    × StoresFirst contexts 7 o nothing_stored c'
process_https_record-FirstValid_example =
    process_https_record-FirstValid all_features list_cbs list_cbs-IsCbs protocol contexts 7
      nothing_stored ([] ∷ raw ∷ []) refl (tt, (raw_bytes, tt))

should_upgrade_http_to_https-Decides_example :
    (b : Bool) × Decides protocol ([] ∷ raw ∷ []) b
    × (should_upgrade_http_to_https all_features list_cbs protocol (some ([] ∷ raw ∷ [])) ≡ some b)
should_upgrade_http_to_https-Decides_example =
    should_upgrade_http_to_https-Decides all_features list_cbs list_cbs-IsCbs protocol
      ([] ∷ raw ∷ []) refl (tt, (raw_bytes, tt))

-- Two protocols in two parameters, two configurations, a port that is too short and one that is
-- not, and a mandatory key, in a mixed order.
abbrev mixed : List Tlv
mixed =
    record { tag = 5; value = 1 ∷ [] }
    ∷ record { tag = 1; value = 2 ∷ 104 ∷ 51 ∷ [] }
    ∷ record { tag = 3; value = 1 ∷ 187 ∷ [] }
    ∷ record { tag = 0; value = 0 ∷ 1 ∷ [] }
    ∷ record { tag = 5; value = 10 ∷ 20 ∷ [] }
    ∷ record { tag = 1; value = 2 ∷ 104 ∷ 50 ∷ 9 ∷ [] }
    ∷ record { tag = 3; value = 7 ∷ [] }
    ∷ []

parse-Means_example :
    (r : HttpsRecordResult) × (parse list_cbs protocol
        (0 ∷ 1 ∷ encode_all encode_label target_labels (0 ∷ encode_all encode_tlv mixed []))
      ≡ some r)
    × Means protocol (dotted target_labels) mixed r
    × ((r' : HttpsRecordResult) → Means protocol (dotted target_labels) mixed r' → view r ≡ view r')
parse-Means_example =
    parse-Means list_cbs list_cbs-IsCbs protocol protocol-IsAddressCheck protocol-HasDistinctKeys 0
      1 target_labels mixed [] (omega arith) ((omega arith, omega arith), tt)
      (fit_wire-FitsWire mixed refl) (few (omega arith))
