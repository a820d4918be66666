-- ===== src/Dns/Record.antt =====
-- host_resolver_manager.cc: `HttpsRecordResult`.
use kiwi_network_patches.Prelude.{ℕ, Bool, false, List, [], Option, none}
use kiwi_network_patches.Prelude.Bytes.{Bytes}

pub record HttpsRecordResult : Type 0 where
  pub ech_config : Bytes
  pub alpn : List Bytes
  pub ipv4_hints : List Bytes
  pub ipv6_hints : List Bytes
  pub port : Option ℕ
  -- A `std::set`: no member twice. The order of a walk does not matter to its one reader.
  pub mandatory_keys : List Bytes
  pub alternative_service : Bytes
  pub valid : Bool

-- The default member values.
abbrev pub fresh_result : HttpsRecordResult
fresh_result = record {
  ech_config = [];
  alpn = [];
  ipv4_hints = [];
  ipv6_hints = [];
  port = none;
  mandatory_keys = [];
  alternative_service = [];
  valid = false;
}
