-- ===== src/Chromecast/Session/Devices.antt =====
-- chromecast/session.cc: the worker's calls to devices, and what the commands share.
pub mod Quiet
use Prim.Native.String.{String}
use phone.Prelude.Integers.{ℤ, pos, negsuc, less_int, same_int}
use phone.Prelude.Texts.{bytes_of}
use phone.Prelude.{
  ℕ, zero, suc, Bool, true, false, not, ◌&&◌, ◌||◌, List, [], ◌∷◌, ◌++◌, Option, none, some,
  list_eq, max, ltb, leb, ◌==◌, if◌then◌else◌,
}
use phone.Chromecast.Json.{Text, Numbers, is_empty}
use phone.Chromecast.Protocol.{DeviceInfo, WifiNetwork, parse_info, parse_configured, is_negative}
use phone.Chromecast.Protocol.Passwords.{same_device}
use phone.Chromecast.Discovery.{contains}
use phone.Chromecast.Session.Known.{in_subnet, remember}
use phone.Chromecast.Session.World.{
  Endpoint, Response, HttpError, HttpResult, answered, no_answer, PhoneNetwork, WifiRequest,
  Requested, requested, refused, Device, Stage, failing, Snapshot, Session, SessionConfig, Phone,
  Run, return, ◌>>=◌, ask, act, get, put_session, change, name_of,
}

-- kConnected <= state && state <= 64
unfoldable pub is_connected : ℤ → Bool
is_connected state = not (less_int state (pos 60)) && not (less_int (pos 64) state)

unfoldable pub on_target : DeviceInfo → WifiNetwork → Bool
on_target info target = list_eq info.ssid target.ssid && is_connected info.state

unfoldable pub add_device : List Device → Device → List Device
add_device [] device = device ∷ []
add_device (d ∷ list) device =
    let rest = add_device list device in
    if same_device d.info device.info
    then (if d.hotspot && not device.hotspot then device ∷ list else d ∷ list)
    else d ∷ rest

unfoldable pub add_candidates : List ℕ → List ℕ → List ℕ
add_candidates candidates [] = candidates
add_candidates candidates (a ∷ more) =
    add_candidates (if contains candidates a then candidates else candidates ++ a ∷ []) more

unfoldable pub usable_hints : List ℕ → PhoneNetwork → List ℕ
usable_hints [] n = []
usable_hints (hint ∷ hints) n =
    let rest = usable_hints hints n in
    if not (hint == 0) && in_subnet hint n.address (max n.prefix 24) then hint ∷ rest else rest

unfoldable pub has_ssid : Text → List Text → Bool
has_ssid ssid [] = false
has_ssid ssid (s ∷ ss) = list_eq s ssid || has_ssid ssid ss

module _ {W : Type 0} (f : Numbers) (phone : Phone W) (config : SessionConfig) where
  unfoldable pub publish : Run W (Unit {0})
  publish = do s ← get; put_session (record s { shared = s.work })

  unfoldable pub release_if : ℤ → Run W (Unit {0})
  release_if id = if is_negative id then return tt else act (phone.release_network id)

  unfoldable pub release_requests : Run W (Unit {0})
  release_requests = do
    s ← get
    _ ← release_if s.hotspot_request
    _ ← release_if s.target_request
    _ ← put_session (record s { hotspot_request = negsuc 0; target_request = negsuc 0 })
    change (λ work. record work { prompt = false })

  unfoldable pub fail : Text → Bool → Run W (Unit {0})
  fail message retry = do
    _ ← release_requests
    _ ← change (λ work. record work {
      failed = work.stage;
      stage = failing;
      message = message;
      retry = retry;
    })
    publish

  unfoldable pub on_hotspot : PhoneNetwork → Bool
  on_hotspot n = in_subnet n.address config.hotspot_address 24

  unfoldable pub is_refused : HttpResult → Bool
  is_refused (answered response) = response.status == 400 || response.status == 404
  is_refused (no_answer error) = false

  -- The answer to kInfoPath, or to kBasicInfoPath where the device knows no such path.
  unfoldable pub request_info : Endpoint → HttpResult → Run W HttpResult
  request_info e response =
      if is_refused response
      then ask (phone.request e (bytes_of "GET") (bytes_of "/setup/eureka_info") [])
      else return response

  -- A round of read_info with an answer; `again` is the next round over plain HTTP.
  unfoldable pub read_answer :
      Endpoint
      → (Endpoint → Run W (Option DeviceInfo × Endpoint))
      → HttpResult
      → Run W (Option DeviceInfo × Endpoint)
  read_answer e again (answered response) =
      return (if response.status == 200 then parse_info f response.body else none, e)
  read_answer e again (no_answer error) =
      if not error.connected || not e.tls
      then return (none, e)
      else again (record e { tls = false; port = config.http_port })

  unfoldable pub read_attempts : ℕ → Endpoint → Run W (Option DeviceInfo × Endpoint)
  read_attempts zero e = return (none, e)
  read_attempts (suc n) e = do
    first ← ask (
        phone.request e (bytes_of "GET")
          (bytes_of "/setup/eureka_info?params=version,name,build_info,device_info,net,wifi,setup")
          [])
    response ← request_info e first
    read_answer e (read_attempts n) response

  unfoldable pub read_info : Endpoint → Run W (Option DeviceInfo × Endpoint)
  read_info e = read_attempts 2 e

  unfoldable pub post : Endpoint → Text → Text → Run W HttpResult
  post e path body = ask (phone.request e (bytes_of "POST") path body)

  -- What an address of find_devices adds to the devices found.
  unfoldable pub add_found : Bool → List Device → Option DeviceInfo × Endpoint → List Device
  add_found hotspot found (none, e) = found
  add_found hotspot found (some info, e) =
      add_device found (record { info = info; endpoint = e; reachable = true; hotspot = hotspot })

  unfoldable pub ask_candidates : PhoneNetwork → Bool → List ℕ → List Device → Run W (List Device)
  ask_candidates n hotspot [] found = return found
  ask_candidates n hotspot (address ∷ addresses) found =
      let next = do
        answer ←
            read_info (record {
              network = n.handle;
              address = address;
              port = config.https_port;
              tls = true;
            })
        ask_candidates n hotspot addresses (add_found hotspot found answer)
      in do stop ← ask phone.interrupted; if stop then return found else next

  unfoldable pub find_devices : PhoneNetwork → List ℕ → Run W (List Device)
  find_devices n hints =
      let swept = λ (candidates : List ℕ). do
        open_hosts ← ask (phone.sweep_subnet n)
        ask_candidates n false (add_candidates candidates open_hosts) []
      in let home = do
        answers ← ask (phone.query_mdns n)
        stop ← ask phone.interrupted
        if stop then return [] else swept (add_candidates (usable_hints hints n) answers)
        in if on_hotspot n then ask_candidates n true (config.hotspot_address ∷ []) [] else home

  unfoldable pub first_same : DeviceInfo → List Device → Option Device
  first_same info [] = none
  first_same info (d ∷ found) =
      let rest = first_same info found in if same_device d.info info then some d else rest

  unfoldable pub found_or : Option Device → Run W (Option Device) → Run W (Option Device)
  found_or (some d) later = return (some d)
  found_or none later = later

  -- find_on_lan: the device where it was found, instead of the assignment to it.
  unfoldable pub search_networks : DeviceInfo → List PhoneNetwork → Run W (Option Device)
  search_networks info [] = return none
  search_networks info (n ∷ networks) =
      let rest = search_networks info networks in
      let searched = do
        found ← find_devices n (phone.parse_address info.ip ∷ [])
        found_or (first_same info found) rest
      in do
        stop ← ask phone.interrupted
        if stop then return none else if on_hotspot n then rest else searched

  unfoldable pub find_on_lan : DeviceInfo → Run W (Option Device)
  find_on_lan info = do networks ← ask phone.list_networks; search_networks info networks

  -- request_target without a request yet; whether it may go on.
  unfoldable pub after_request : WifiNetwork → Requested → Run W Bool
  after_request target (refused error) = do
    _ ←
        fail
          (bytes_of "Android could not join "
            ++ target.ssid
            ++ bytes_of ": "
            ++ error
            ++ bytes_of ". Connect this phone to that Wi-Fi in Settings, then search again.")
          false
    return false
  after_request target (requested id) = do
    s ← get
    _ ← put_session (record s { target_request = id })
    _ ← change (λ work. record work { prompt = true })
    _ ← publish
    return true

  unfoldable pub request_new_target : WifiNetwork → Text → Run W Bool
  request_new_target target password = do
    s ← get
    _ ← release_if s.hotspot_request
    _ ← put_session (record s { hotspot_request = negsuc 0 })
    answer ← ask (
        phone.request_network (record {
          ssid = target.ssid;
          bssid = [];
          passphrase = password;
          prefix = false;
          wpa3 = same_int target.auth (pos 10);
        }))
    after_request target answer

  unfoldable pub request_target : WifiNetwork → Text → Run W Bool
  request_target target password = do
    s ← get
    if is_negative s.target_request then request_new_target target password else return true

  unfoldable pub lists_network : WifiNetwork → HttpResult → Bool
  lists_network target (no_answer error) = false
  lists_network target (answered response) =
      response.status == 200 && has_ssid target.ssid (parse_configured f response.body)

  unfoldable pub network_saved : Device → WifiNetwork → Run W Bool
  network_saved d target =
      let configured = do
        response ←
            ask
              (phone.request d.endpoint (bytes_of "GET") (bytes_of "/setup/configured_networks") [])
        return (lists_network target response)
      in if same_int d.info.state (pos 62)
        then return true
        else if same_int d.info.state (pos 61)
        then return false
        else configured

  -- remember and save_known.
  unfoldable pub remember_device : DeviceInfo → Run W (Unit {0})
  remember_device info = do
    s ← get
    let known = remember phone.parse_address config.hotspot_address s.known info
    _ ← put_session (record s { known = known })
    act (phone.save_file known)
