-- ===== src/Chromecast/Session/Known.antt =====
-- chromecast/session.cc: the devices seen before, kept in a file, and the list of those found.
pub mod Printed
pub mod RoundTrip
pub mod Kept
pub mod Restarts
pub mod Remembered
mod Tests
use phone.Prelude.Integers.{ℤ, pos, negsuc}
use phone.Prelude.Texts.{bytes_of}
use phone.Prelude.{
  ℕ, zero, suc, ◌-◌, ◌^◌, Bool, true, false, not, ◌&&◌, ◌||◌, List, [], ◌∷◌, ◌++◌, Option, none,
  some, length, ltb, ◌==◌, if◌then◌else◌, bit_and, min,
}
use phone.Chromecast.Json.{Text, Json, Items, array, no_items, item, Numbers, is_empty}
use phone.Chromecast.Json.Parser.{parse_json, quote}
use phone.Chromecast.Protocol.{DeviceInfo, root_of, text_at}
use phone.Chromecast.Protocol.Passwords.{same_device}

-- "key":
abbrev pub key_text : Text → Text
key_text key = b'"' ∷ (key ++ (b'"' ∷ b':' ∷ []))

-- The members of an object with texts for values.
unfoldable pub members_text : List (Text × Text) → Text
members_text [] = []
members_text ((key, value) ∷ []) = key_text key ++ quote value
members_text ((key, value) ∷ m ∷ ms) =
    key_text key ++ (quote value ++ (b',' ∷ members_text (m ∷ ms)))

-- What encode_known keeps of a device, in its order.
abbrev pub members_of : DeviceInfo → List (Text × Text)
members_of d =
    (bytes_of "name", d.name)
    ∷ (bytes_of "model", d.model)
    ∷ (bytes_of "mac", d.mac)
    ∷ (bytes_of "udn", d.udn)
    ∷ (bytes_of "hotspot_bssid", d.hotspot_bssid)
    ∷ (bytes_of "ssid", d.ssid)
    ∷ (bytes_of "ip", d.ip)
    ∷ []

unfoldable pub device_text : DeviceInfo → Text
device_text d = b'{' ∷ (members_text (members_of d) ++ (b'}' ∷ []))

-- The loop of encode_known.
unfoldable pub known_text : List DeviceInfo → Text → Text
known_text [] out = out
known_text (d ∷ ds) out =
    known_text ds ((if ltb 1 (length out) then out ++ (b',' ∷ []) else out) ++ device_text d)

unfoldable pub encode_known : List DeviceInfo → Text
encode_known known = known_text known (b'[' ∷ []) ++ (b']' ∷ [])

-- A device read from the file: what is not kept has its initial value.
unfoldable pub stored : Text → Text → Text → Text → Text → Text → Text → DeviceInfo
stored name model mac udn hotspot_bssid ssid ip = record {
  name = name;
  model = model;
  build = [];
  mac = mac;
  udn = udn;
  hotspot_bssid = hotspot_bssid;
  public_key = [];
  ssid = ssid;
  ip = ip;
  state = negsuc 0;
  signal = pos 0;
  keeps_hotspot = false;
}

unfoldable pub decode_row : Json → DeviceInfo
decode_row row =
    let at_key = λ (key : Text). text_at row (key ∷ []) in
    stored (at_key (bytes_of "name")) (at_key (bytes_of "model")) (at_key (bytes_of "mac"))
      (at_key (bytes_of "udn")) (at_key (bytes_of "hotspot_bssid")) (at_key (bytes_of "ssid"))
      (at_key (bytes_of "ip"))

-- A device is kept under a MAC address or UDN only.
unfoldable pub is_kept : DeviceInfo → Bool
is_kept d = not (is_empty d.mac) || not (is_empty d.udn)

unfoldable pub decode_rows : Items → List DeviceInfo
decode_rows no_items = []
decode_rows (item row rows) =
    let rest = decode_rows rows in if is_kept (decode_row row) then decode_row row ∷ rest else rest

unfoldable pub decode_root : Option Json → List DeviceInfo
decode_root (some (array rows)) = decode_rows rows
decode_root _ = []

unfoldable pub decode_known : Numbers → Text → List DeviceInfo
decode_known f text = decode_root (root_of (parse_json f text))

-- ~0u << (32 - prefix), or 0 without a prefix.
unfoldable pub in_subnet : ℕ → ℕ → ℕ → Bool
in_subnet a b prefix =
    let mask = if prefix == 0 then 0 else 2 ^ 32 - 2 ^ (32 - min prefix 32) in
    bit_and a mask == bit_and b mask

-- inet_pton and the conversion from network order; 0 where the text is no address.
abbrev pub ParseAddress : Type 0
ParseAddress = Text → ℕ

-- What is remembered in the place of a device seen before: a hotspot reports no home network.
unfoldable pub keep_network : ParseAddress → ℕ → DeviceInfo → DeviceInfo → DeviceInfo
keep_network parse_address hotspot_address same kept =
    if is_empty kept.ssid
      || is_empty kept.ip
      || in_subnet (parse_address kept.ip) hotspot_address 24
    then record kept { ssid = same.ssid; ip = same.ip }
    else kept

unfoldable pub remember_in : ParseAddress → ℕ → DeviceInfo → List DeviceInfo → List DeviceInfo
remember_in parse_address hotspot_address info [] = record info { public_key = [] } ∷ []
remember_in parse_address hotspot_address info (d ∷ known) =
    let rest = remember_in parse_address hotspot_address info known in
    if same_device d info
    then keep_network parse_address hotspot_address d (record info { public_key = [] }) ∷ known
    else d ∷ rest

unfoldable pub remember : ParseAddress → ℕ → List DeviceInfo → DeviceInfo → List DeviceInfo
remember parse_address hotspot_address known info =
    if is_empty info.mac && is_empty info.udn
    then known
    else remember_in parse_address hotspot_address info known

unfoldable pub identified : DeviceInfo → Bool
identified d = not (is_empty d.mac) || not (is_empty d.udn) || not (is_empty d.public_key)

-- The devices that a search found are remembered one by one.
unfoldable pub remember_all : ParseAddress → ℕ → List DeviceInfo → List DeviceInfo → List DeviceInfo
remember_all parse_address hotspot_address known [] = known
remember_all parse_address hotspot_address known (info ∷ infos) =
    remember_all parse_address hotspot_address (remember parse_address hotspot_address known info)
      infos
