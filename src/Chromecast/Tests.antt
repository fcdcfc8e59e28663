-- ===== src/Chromecast/Tests.antt =====
-- Runs of the parser, the protocol and the discovery of chromecast/ on concrete texts and packets.
use phone.Prelude.Integers.{pos, negsuc}
use phone.Prelude.Results.{ok}
use phone.Prelude.Texts.{bytes_of}
use phone.Prelude.{
  ℕ, ◌+◌, ◌*◌, ◌-◌, ◌^◌, ◌<◌, ◌≡◌, ◌≢◌, ◌↔◌, refl, true, false, List, [], ◌∷◌, ◌++◌, some, All, In,
  Distinct, arith, filter, not,
}
use phone.Chromecast.Json.{
  Text, Json, string, number, object, array, item, no_items, field, no_fields, parsed, out_of_fuel,
  quoted, is_space,
}
use phone.Chromecast.Json.Parser.{parse_json, quote}
use phone.Chromecast.Json.Parser.Total.{parse_json-ends}
use phone.Chromecast.Json.Parser.Quoting.{quoted-quote}
use phone.Chromecast.Protocol.{DeviceInfo, root_of, rows_under}
use phone.Chromecast.Protocol.Scanning.{parse_scan, scan_keys}
use phone.Chromecast.Protocol.Scanning.Merged.{keys, IsSorted, Covers}
use phone.Chromecast.Protocol.Scanning.Strongest.{read_rows, parse_scan-IsSorted, parse_scan-Covers}
use phone.Chromecast.Protocol.Wrapping.{wrap_pkcs1}
use phone.Chromecast.Protocol.Wrapping.Unwrapping.{unwrap, unwrap-wrap_pkcs1}
use phone.Chromecast.Protocol.Passwords.{same_device, valid_passphrase, encrypt_password}
use phone.Chromecast.Protocol.Passwords.Checks.{
  IsPassphrase, FromDer, same_device_comm, valid_passphrase-IsPassphrase, encrypt_password-ok,
}
use phone.Chromecast.Discovery.{Packet, Datagram, query_mdns, sweep_hosts}
use phone.Chromecast.Discovery.Bounds.{Gives, query_mdns-Gives}
use phone.Chromecast.Discovery.Subnet.{sweep_hosts-IsHost}
use phone.Chromecast.Runs.{protocol_run, numbers, crypto, passphrase}

abbrev broken_text : Text
broken_text = bytes_of "[{\"a\":[true,1.5e3]},"

parse_json-ends_example : parse_json numbers broken_text ≢ out_of_fuel
parse_json-ends_example = parse_json-ends numbers broken_text

quoted-quote_example :
    quoted (quote (b'"' ∷ 1 ∷ b'\\' ∷ []) ++ bytes_of "]")
    ≡ parsed (b'"' ∷ 1 ∷ b'\\' ∷ [], bytes_of "]")
quoted-quote_example = quoted-quote (b'"' ∷ 1 ∷ b'\\' ∷ []) (bytes_of "]")

-- Two rows for one network, the second stronger, and one for another.
abbrev scan_text : Text
scan_text =
    bytes_of
      "[{\"ssid\":\"a\",\"signal_level\":1},{\"ssid\":\"b\",\"signal_level\":2},{\"ssid\":\"a\",\"signal_level\":3}]"

parse_scan-IsSorted_example :
    IsSorted (parse_scan numbers scan_text) × Distinct (keys (parse_scan numbers scan_text))
parse_scan-IsSorted_example = parse_scan-IsSorted numbers scan_text

abbrev row : Text → ℕ → Json
row ssid signal = object (
    field (bytes_of "ssid") (string ssid)
      (field (bytes_of "signal_level") (number signal) no_fields))

abbrev scan_root : Json
scan_root = array (
    item (row (bytes_of "a") 1)
      (item (row (bytes_of "b") 2) (item (row (bytes_of "a") 3) no_items)))

scan_text_parses : root_of (parse_json numbers scan_text) ≡ some scan_root
unfolding protocol_run
scan_text_parses = refl

parse_scan-Covers_example :
    All
      (λ n. Covers n (parse_scan numbers scan_text))
      (read_rows numbers (rows_under scan_root scan_keys))
parse_scan-Covers_example = parse_scan-Covers numbers scan_text scan_root scan_text_parses

unwrap-wrap_pkcs1_example : unwrap (wrap_pkcs1 (1 ∷ 2 ∷ 3 ∷ [])) ≡ some (1 ∷ 2 ∷ 3 ∷ [])
unwrap-wrap_pkcs1_example = unwrap-wrap_pkcs1 (1 ∷ 2 ∷ 3 ∷ []) (omega arith)

abbrev device : Text → Text → DeviceInfo
device mac udn = record {
  name = bytes_of "TV";
  model = [];
  build = [];
  mac = mac;
  udn = udn;
  hotspot_bssid = [];
  public_key = [];
  ssid = [];
  ip = [];
  state = negsuc 0;
  signal = pos 0;
  keeps_hotspot = false;
}

same_device_comm_example :
    same_device (device (bytes_of "aA") []) (device (bytes_of "Aa") (bytes_of "u"))
    ≡ same_device (device (bytes_of "Aa") (bytes_of "u")) (device (bytes_of "aA") [])
same_device_comm_example =
    same_device_comm (device (bytes_of "aA") []) (device (bytes_of "Aa") (bytes_of "u"))

valid_passphrase-IsPassphrase_example :
    (valid_passphrase passphrase ≡ true) ↔ IsPassphrase passphrase
valid_passphrase-IsPassphrase_example = valid_passphrase-IsPassphrase passphrase

encrypt_password-ok_example :
    (der : Text) × (crypto.base64_decode (filter (λ b. not (is_space b)) (bytes_of "A A"))
      ≡ some der)
    × FromDer crypto passphrase passphrase der
encrypt_password-ok_example =
    encrypt_password-ok crypto (bytes_of "A A") passphrase passphrase encrypted
  where
    encrypted : encrypt_password crypto (bytes_of "A A") passphrase ≡ ok passphrase
    encrypted = unfold protocol_run in refl

-- A response with one A record, whose name is compressed, and one that ends within a record.
abbrev response : Packet
response =
    0 ∷ 0 ∷ 0x84 ∷ 0 ∷ 0 ∷ 0 ∷ 0 ∷ 1 ∷ 0 ∷ 0 ∷ 0 ∷ 0 ∷ 0xc0 ∷ 12 ∷ 0 ∷ 1 ∷ 0 ∷ 1 ∷ 0 ∷ 0 ∷ 0 ∷ 120
    ∷ 0 ∷ 4 ∷ 10 ∷ 0 ∷ 0 ∷ 2 ∷ []

abbrev datagrams : List Datagram
datagrams =
    record { packet = response; sender = 0x0a000002 }
    ∷ record { packet = 0 ∷ 0 ∷ 0x84 ∷ 0 ∷ 0 ∷ 0 ∷ 0 ∷ 9 ∷ 0 ∷ 0 ∷ 0 ∷ 0 ∷ 63 ∷ []; sender = 7 }
    ∷ []

query_mdns-Gives_example :
    Gives
      (λ found. Distinct found × (¬ In 0 found) × (¬ In 0x0a000001 found))
      (query_mdns 0x0a000001 datagrams)
query_mdns-Gives_example = query_mdns-Gives 0x0a000001 datagrams

sweep_hosts-IsHost_example :
    In (5 * 2 ^ 2 + 1) (sweep_hosts (5 * 2 ^ 2 + 2) (32 - 2))
    ↔ ((i : ℕ) × (0 < i) × (i + 1 < 2 ^ 2) × (5 * 2 ^ 2 + 1 ≡ 5 * 2 ^ 2 + i) × (i ≢ 2))
sweep_hosts-IsHost_example =
    sweep_hosts-IsHost 2 5 2 (5 * 2 ^ 2 + 1) (omega arith) (omega arith) (omega arith) (omega arith)
