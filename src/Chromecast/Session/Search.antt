-- ===== src/Chromecast/Session/Search.antt =====
-- chromecast/session.cc: run_search.
pub mod Same
pub mod Listed
use phone.Prelude.Integers.{ℤ, pos, negsuc}
use phone.Prelude.{
  ℕ, Bool, true, false, not, List, [], ◌∷◌, ◌++◌, Option, none, some, if◌then◌else◌,
}
use phone.Chromecast.Json.{Text, Numbers}
use phone.Chromecast.Protocol.{DeviceInfo}
use phone.Chromecast.Protocol.Passwords.{same_device}
use phone.Chromecast.Session.Known.{stored, remember_all}
use phone.Chromecast.Session.World.{
  Endpoint, PhoneNetwork, Device, Stage, searching, devices_listed, failing, Snapshot, Session,
  SessionConfig, Phone, Run, return, ◌>>=◌, ask, act, get, put_session, change,
}
use phone.Chromecast.Session.Devices.{add_device, publish, release_requests, find_devices}

abbrev pub no_endpoint : Endpoint
no_endpoint = record { network = 0; address = 0; port = 0; tls = false }

-- A device that is known and out of reach.
unfoldable pub remembered : DeviceInfo → Device
remembered info = record { info = info; endpoint = no_endpoint; reachable = false; hotspot = false }

unfoldable pub remembered_all : List DeviceInfo → List Device
remembered_all [] = []
remembered_all (d ∷ known) = remembered d ∷ remembered_all known

-- The initial values of Snapshot.
unfoldable pub new_snapshot : Snapshot
new_snapshot = record {
  stage = searching;
  devices = [];
  device = remembered (stored [] [] [] [] [] [] []);
  networks = [];
  target = [];
  message = [];
  prompt = false;
  joined = false;
  retry = false;
  failed = failing;
}

unfoldable pub add_devices : List Device → List Device → List Device
add_devices found [] = found
add_devices found (d ∷ ds) = add_devices (add_device found d) ds

unfoldable pub infos_of : List Device → List DeviceInfo
infos_of [] = []
infos_of (d ∷ ds) = d.info ∷ infos_of ds

-- One side of std::stable_partition: the devices over their hotspot, or the others.
unfoldable pub over_hotspot : Bool → List Device → List Device
over_hotspot true [] = []
over_hotspot false [] = []
over_hotspot true (d ∷ ds) = let rest = over_hotspot true ds in if d.hotspot then d ∷ rest else rest
over_hotspot false (d ∷ ds) =
    let rest = over_hotspot false ds in if d.hotspot then rest else d ∷ rest

unfoldable pub has_same : DeviceInfo → List Device → Bool
has_same d [] = false
has_same d (f ∷ found) = let rest = has_same d found in if same_device f.info d then true else rest

-- The known devices are listed too, unless the list has the same already.
unfoldable pub list_known : List Device → List DeviceInfo → List Device
list_known found [] = found
list_known found (d ∷ known) =
    list_known (if has_same d found then found else found ++ remembered d ∷ []) known

unfoldable pub list_devices : List Device → List DeviceInfo → List Device
list_devices found known = list_known (over_hotspot false found ++ over_hotspot true found) known

module _ {W : Type 0} (f : Numbers) (phone : Phone W) (config : SessionConfig) where
  unfoldable pub hints_of : List DeviceInfo → List ℕ
  hints_of [] = []
  hints_of (d ∷ known) = phone.parse_address d.ip ∷ hints_of known

  -- The loop over the networks; none where run_search returns from it.
  unfoldable pub search_all :
      List ℕ → List PhoneNetwork → List Device → Run W (Option (List Device))
  search_all hints [] found = return (some found)
  search_all hints (n ∷ networks) found =
      let search = do
        devices ← find_devices f phone config n hints
        search_all hints networks (add_devices found devices)
      in do stop ← ask phone.interrupted; if stop then return none else search

  unfoldable pub show_devices : List Device → Run W (Unit {0})
  show_devices found = do
    s ← get
    let known = remember_all phone.parse_address config.hotspot_address s.known (infos_of found)
    _ ← put_session (record s { known = known })
    _ ← act (phone.save_file known)
    _ ← change (λ work. record work { devices = list_devices found known; stage = devices_listed })
    publish f phone config

  unfoldable pub show_found : Option (List Device) → Run W (Unit {0})
  show_found none = return tt
  show_found (some found) = do
    stop ← ask phone.interrupted
    if stop then return tt else show_devices found

  unfoldable pub run_search : Run W (Unit {0})
  run_search = do
    _ ← release_requests f phone config
    s ← get
    _ ← change (λ work. record new_snapshot { devices = remembered_all s.known })
    _ ← publish f phone config
    networks ← ask phone.list_networks
    found ← search_all (hints_of s.known) networks []
    show_found found
