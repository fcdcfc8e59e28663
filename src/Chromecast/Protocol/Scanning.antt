-- ===== src/Chromecast/Protocol/Scanning.antt =====
-- chromecast/protocol.cc: parse_scan.
pub mod Merged
pub mod Strongest
use phone.Prelude.Integers.{ℤ, pos, negsuc, same_int, less_int, to_int}
use phone.Prelude.Texts.{bytes_of}
use phone.Prelude.{
  ℕ, zero, suc, Bool, true, false, not, ◌&&◌, ◌||◌, List, [], ◌∷◌, Option, none, some, list_eq,
  ◌==◌, if◌then◌else◌, ◌>>=◌, require,
}
use phone.Chromecast.Json.{
  Text, Json, Items, object, array, no_items, item, field, Numbers, is_empty,
}
use phone.Chromecast.Json.Parser.{parse_json, find, as_string, as_integer}
use phone.Chromecast.Protocol.{
  WifiNetwork, int_at, int_or, text_at, is_negative, root_of, rows_of, rows_under,
}

-- The first of `items`, which an object has too.
unfoldable pub first_item : Option Json → Option Json
first_item (some (array (item ap aps))) = some ap
first_item (some (object (field key ap aps))) = some ap
first_item _ = none

-- The frequency of the first of ap_list.
unfoldable pub ap_frequency : Numbers → Option Json → ℤ
ap_frequency f none = pos 0
ap_frequency f (some ap) = int_at f ap (bytes_of "frequency" ∷ []) (pos 0)

unfoldable pub read_network : Numbers → Json → Text → WifiNetwork
read_network f row ssid =
    let frequency = int_at f row (bytes_of "frequency" ∷ []) (pos 0) in
    let ap = first_item (find (some row) (bytes_of "ap_list" ∷ [])) in
    record {
      ssid = ssid;
      bssid = text_at row (bytes_of "bssid" ∷ []);
      signal = int_at f row (bytes_of "signal_level" ∷ []) (negsuc 99);
      auth = int_at f row (bytes_of "wpa_auth" ∷ []) (pos 0);
      cipher = int_at f row (bytes_of "wpa_cipher" ∷ []) (pos 0);
      frequency = if same_int frequency (pos 0) then ap_frequency f ap else frequency;
      wpa_id = int_at f row (bytes_of "wpa_id" ∷ []) (negsuc 0);
    }

-- A row without an SSID is passed over.
unfoldable pub scan_row : Numbers → Json → Option WifiNetwork
scan_row f row = do
  ssid ← as_string (find (some row) (bytes_of "ssid" ∷ []))
  _ ← require (not (is_empty ssid))
  some (read_network f row ssid)

unfoldable pub same_network : WifiNetwork → WifiNetwork → Bool
same_network o n = list_eq o.ssid n.ssid && same_int o.auth n.auth && same_int o.cipher n.cipher

-- What stands in the place of the entry `o` after a row for the same network.
unfoldable pub stronger : WifiNetwork → WifiNetwork → WifiNetwork
stronger o row =
    let n = if is_negative row.wpa_id then record row { wpa_id = o.wpa_id } else row in
    if less_int o.signal n.signal
    then n
    else if is_negative o.wpa_id
    then record o { wpa_id = n.wpa_id }
    else o

unfoldable pub merge : WifiNetwork → List WifiNetwork → List WifiNetwork
merge n [] = n ∷ []
merge n (o ∷ result) =
    let rest = merge n result in if same_network o n then stronger o n ∷ result else o ∷ rest

unfoldable pub merge_row : Option WifiNetwork → List WifiNetwork → List WifiNetwork
merge_row none result = result
merge_row (some n) result = merge n result

-- The loop over the rows.
unfoldable pub scan_rows : Numbers → Items → List WifiNetwork → List WifiNetwork
scan_rows f no_items result = result
scan_rows f (item row rows) result = scan_rows f rows (merge_row (scan_row f row) result)

-- std::stable_sort by signal, the strongest first, as a sort by insertion.
unfoldable pub insert : WifiNetwork → List WifiNetwork → List WifiNetwork
insert n [] = n ∷ []
insert n (o ∷ result) =
    let rest = insert n result in if less_int n.signal o.signal then o ∷ rest else n ∷ o ∷ result

unfoldable pub sort : List WifiNetwork → List WifiNetwork
sort [] = []
sort (n ∷ result) = insert n (sort result)

abbrev pub scan_keys : List Text
scan_keys = bytes_of "networks" ∷ bytes_of "scan_results" ∷ bytes_of "results" ∷ []

unfoldable pub networks_in : Numbers → Option Json → List WifiNetwork
networks_in f none = []
networks_in f (some root) = sort (scan_rows f (rows_under root scan_keys) [])

unfoldable pub parse_scan : Numbers → Text → List WifiNetwork
parse_scan f json = networks_in f (root_of (parse_json f json))
