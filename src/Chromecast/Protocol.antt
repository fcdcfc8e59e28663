-- ===== src/Chromecast/Protocol.antt =====
-- chromecast/protocol.cc: the answers of a device, read into the structs of protocol.h.
pub mod Passwords
pub mod Scanning
pub mod Wrapping
pub mod Body
use phone.Prelude.Integers.{ℤ, pos, negsuc, same_int, less_int, to_int}
use phone.Prelude.Texts.{bytes_of}
use phone.Prelude.{
  ℕ, zero, suc, Bool, true, false, not, ◌&&◌, ◌||◌, List, [], ◌∷◌, Option, none, some, list_eq,
  ◌==◌, if◌then◌else◌, ◌>>=◌, require,
}
use phone.Chromecast.Json.{
  Text, Json, Items, object, array, no_items, item, Numbers, Outcome, parsed, failed, out_of_fuel,
  is_empty,
}
use phone.Chromecast.Json.Parser.{parse_json, find, as_string, as_bool, as_integer}

pub record DeviceInfo : Type 0 where
  pub name : Text
  pub model : Text
  pub build : Text
  pub mac : Text
  pub udn : Text
  pub hotspot_bssid : Text
  pub public_key : Text
  pub ssid : Text
  pub ip : Text
  pub state : ℤ
  pub signal : ℤ
  pub keeps_hotspot : Bool

pub record WifiNetwork : Type 0 where
  pub ssid : Text
  pub bssid : Text
  pub signal : ℤ
  pub auth : ℤ
  pub cipher : ℤ
  pub frequency : ℤ
  pub wpa_id : ℤ

-- setup_state values.
abbrev pub saved_state : ℤ
saved_state = pos 62

unfoldable pub describe : ℕ → Text
describe state =
    if state == 10 || state == 11
    then bytes_of "Not connected"
    else if state == 20
    then bytes_of "Scanning for Wi-Fi"
    else if state == 21
    then bytes_of "Network not found"
    else if state == 30
    then bytes_of "Joining Wi-Fi"
    else if state == 31
    then bytes_of "Wrong password"
    else if state == 32
    then bytes_of "Possibly wrong password"
    else if state == 40
    then bytes_of "Getting an IP address"
    else if state == 41
    then bytes_of "The router gave no IP address"
    else if state == 50
    then bytes_of "Checking internet access"
    else if state == 51 || state == 52
    then bytes_of "No internet through this router"
    else if state == 53 || state == 54
    then bytes_of "The network needs a sign-in page"
    else if state == 60
    then bytes_of "Connected"
    else if state == 61
    then bytes_of "Connected, not saved yet"
    else if state == 62
    then bytes_of "Wi-Fi saved, update pending"
    else if state == 63 || state == 64
    then bytes_of "Connected, setup pending"
    else bytes_of "Unknown state"

unfoldable pub describe_state : ℤ → Text
describe_state (pos state) = describe state
describe_state (negsuc state) = bytes_of "Unknown state"

unfoldable pub failed_state : ℤ → Bool
failed_state (pos state) =
    state == 21
    || state == 31
    || state == 32
    || state == 41
    || state == 51
    || state == 53
    || state == 54
failed_state (negsuc state) = false

-- The optional that parse_json returns.
unfoldable pub root_of : Outcome Json → Option Json
root_of (parsed root) = some root
root_of failed = none
root_of out_of_fuel = none

unfoldable pub text_or : Option Text → Text → Text
text_or none other = other
text_or (some t) other = t

unfoldable pub int_or : Option ℤ → ℤ → ℤ
int_or none other = other
int_or (some n) other = n

unfoldable pub bool_or : Option Bool → Bool → Bool
bool_or none other = other
bool_or (some b) other = b

-- text of the member at a path.
unfoldable pub text_at : Json → List Text → Text
text_at root path = text_or (as_string (find (some root) path)) []

-- The second text where the first is empty.
unfoldable pub unless_empty : Text → Text → Text
unless_empty [] other = other
unless_empty (c ∷ t) other = c ∷ t

-- The int at a path, or the given one.
unfoldable pub int_at : Numbers → Json → List Text → ℤ → ℤ
int_at f root path other = to_int (int_or (as_integer f (find (some root) path)) other)

unfoldable pub is_negative : ℤ → Bool
is_negative (pos n) = false
is_negative (negsuc n) = true

unfoldable pub is_object : Json → Bool
is_object (object fs) = true
is_object _ = false

unfoldable pub is_array : Option Json → Bool
is_array (some (array xs)) = true
is_array _ = false

unfoldable pub state_of : Option ℤ → Option ℤ → ℤ
state_of (some state) other = to_int state
state_of none (some state) = to_int state
state_of none none = negsuc 0

unfoldable pub read_info : Numbers → Json → DeviceInfo
read_info f r =
    let at_key = λ (key : Text). text_at r (key ∷ []) in
    let below = λ (parent key : Text). text_at r (parent ∷ key ∷ []) in
    let device = bytes_of "device_info" in
    record {
      name = at_key (bytes_of "name");
      model = below device (bytes_of "model_name");
      build =
          unless_empty (below (bytes_of "build_info") (bytes_of "cast_build_revision"))
            (at_key (bytes_of "cast_build_revision"));
      mac = unless_empty (below device (bytes_of "mac_address")) (at_key (bytes_of "mac_address"));
      udn = unless_empty (below device (bytes_of "ssdp_udn")) (at_key (bytes_of "ssdp_udn"));
      hotspot_bssid = below device (bytes_of "hotspot_bssid");
      public_key =
          unless_empty (below device (bytes_of "public_key")) (at_key (bytes_of "public_key"));
      ssid = unless_empty (below (bytes_of "wifi") (bytes_of "ssid")) (at_key (bytes_of "ssid"));
      ip =
          unless_empty (below (bytes_of "net") (bytes_of "ip_address"))
            (at_key (bytes_of "ip_address"));
      state =
          state_of (as_integer f (find (some r) (bytes_of "setup" ∷ bytes_of "setup_state" ∷ [])))
            (as_integer f (find (some r) (bytes_of "setup_state" ∷ [])));
      signal = int_at f r (bytes_of "wifi" ∷ bytes_of "signal_level" ∷ []) (pos 0);
      keeps_hotspot =
          bool_or
            (as_bool (
              find (some r) (
                device
                ∷ bytes_of "capabilities"
                ∷ bytes_of "keep_hotspot_until_connected_supported"
                ∷ [])))
            false;
    }

-- What answers and has no setup state, key or name is no setup API.
unfoldable pub is_foreign : DeviceInfo → Bool
is_foreign d = is_negative d.state && is_empty d.public_key && is_empty d.name

unfoldable pub parse_info : Numbers → Text → Option DeviceInfo
parse_info f json = do
  root ← root_of (parse_json f json)
  _ ← require (is_object root)
  _ ← require (not (is_foreign (read_info f root)))
  some (read_info f root)

-- The first of the keys that holds an array, or the value itself.
unfoldable pub first_array : Json → List Text → Option Json
first_array root [] = some root
first_array root (key ∷ keys) =
    let later = first_array root keys in
    let found = find (some root) (key ∷ []) in if is_array found then found else later

unfoldable pub rows_of : Option Json → Items
rows_of (some (array rows)) = rows
rows_of _ = no_items

-- The rows of a root that is an array or an object with one under a key.
unfoldable pub rows_under : Json → List Text → Items
rows_under root keys =
    if is_object root then rows_of (first_array root keys) else rows_of (some root)

unfoldable pub configured : Items → List Text
configured no_items = []
configured (item row rows) =
    let rest = configured rows in add (as_string (find (some row) (bytes_of "ssid" ∷ []))) rest
  where
    add : Option Text → List Text → List Text
    add none rest = rest
    add (some ssid) rest = ssid ∷ rest

unfoldable pub configured_in : Option Json → List Text
configured_in none = []
configured_in (some root) =
    configured (rows_under root (bytes_of "networks" ∷ bytes_of "configured_networks" ∷ []))

unfoldable pub parse_configured : Numbers → Text → List Text
parse_configured f json = configured_in (root_of (parse_json f json))
