-- ===== src/Chromecast/Session/Hotspot.antt =====
-- chromecast/session.cc: join_hotspot. The loop with a deadline takes the number of its rounds before it.
use phone.Prelude.Integers.{negsuc}
use phone.Prelude.Texts.{bytes_of}
use phone.Prelude.{
  ℕ, zero, suc, Bool, true, false, List, [], ◌∷◌, ◌++◌, Option, none, some, if◌then◌else◌,
}
use phone.Chromecast.Json.{Numbers, is_empty}
use phone.Chromecast.Protocol.{DeviceInfo}
use phone.Chromecast.Session.World.{
  PhoneNetwork, WifiRequest, Requested, requested, refused, Device, joining_hotspot, SessionConfig,
  Phone, Run, return, ◌>>=◌, ask, get, put_session, change, name_of,
}
use phone.Chromecast.Session.Devices.{publish, release_if, fail, on_hotspot, read_info}
use phone.Chromecast.Session.Join.{still_there}

-- A request by the device's name, the prefix of its hotspot's SSID.
unfoldable pub named_request : DeviceInfo → WifiRequest
named_request info = record {
  ssid = if is_empty info.name then bytes_of "Chromecast" else info.name;
  bssid = [];
  passphrase = [];
  prefix = true;
  wpa3 = false;
}

unfoldable pub hotspot_wifi : DeviceInfo → WifiRequest
hotspot_wifi info = if is_empty info.hotspot_bssid then named_request info else record {
  ssid = [];
  bssid = info.hotspot_bssid;
  passphrase = [];
  prefix = false;
  wpa3 = false;
}

-- What a look at the phone's networks finds; `stopped` where join_hotspot returns.
pub data Looked : Type 0 where
  found_on : Device → Looked
  absent stopped : Looked

module _ {W : Type 0} (f : Numbers) (phone : Phone W) (config : SessionConfig) where
  unfoldable pub judge_hotspot : Device → Run W Looked → Option Device → Run W Looked
  judge_hotspot d later none = later
  judge_hotspot d later (some d') =
      return (found_on (record d' { reachable = true; hotspot = true }))

  unfoldable pub look_for_hotspot : Device → List PhoneNetwork → Run W Looked
  look_for_hotspot d [] = return absent
  look_for_hotspot d (n ∷ networks) =
      let later = look_for_hotspot d networks in
      let look = do
        answer ← read_info f phone config (record {
          network = n.handle;
          address = config.hotspot_address;
          port = config.https_port;
          tls = true;
        })
        judge_hotspot d later (still_there d answer)
      in do
        stop ← ask phone.interrupted
        if stop then return stopped else if on_hotspot f phone config n then look else later

  -- What follows a request for the hotspot; whether Android started to join it.
  unfoldable pub hotspot_requested : Requested → Run W Bool
  hotspot_requested (refused problem) = do
    _ ←
        fail f phone config (bytes_of "Android did not start joining the hotspot: " ++ problem)
          false
    return false
  hotspot_requested (requested id) = do
    s ← get
    _ ← put_session (record s { hotspot_request = id })
    return true

  -- The request by the device's name, in place of the one by its BSSID.
  unfoldable pub widen : Device → Run W Bool
  widen d = do
    s ← get
    _ ← release_if f phone config s.hotspot_request
    _ ← put_session (record s { hotspot_request = negsuc 0 })
    answer ← ask (phone.request_network (named_request d.info))
    hotspot_requested answer

  -- The end of a round without the hotspot; `again` is the next one, by whether the request is widened.
  unfoldable pub after_look : (Bool → Run W (Option Device)) → Bool → Device → Run W (Option Device)
  after_look again widened d =
      let go_on = λ (w : Bool). do idle ← ask phone.pause; if idle then again w else return none
      in let ask_again = do started ← widen d; if started then go_on true else return none
        in let if_late = do late ← ask phone.waited_long; if late then ask_again else go_on false
          in if widened then go_on true else if_late

  unfoldable pub hotspot_look :
      (Bool → Run W (Option Device)) → Bool → Device → Looked → Run W (Option Device)
  hotspot_look again widened d (found_on d') = do
    _ ← change (λ work. record work { prompt = false })
    return (some d')
  hotspot_look again widened d stopped = return none
  hotspot_look again widened d absent = after_look again widened d

  unfoldable pub hotspot_rounds : ℕ → Device → Bool → Run W (Option Device)
  hotspot_rounds zero d widened = do
    _ ←
        fail f phone config
          (name_of d
            ++ bytes_of
                "'s setup hotspot did not appear. A Chromecast starts it after failing to reach its "
            ++ bytes_of "Wi-Fi for a while; the TV then shows its setup screen.")
          false
    return none
  hotspot_rounds (suc n) d widened = do
    networks ← ask phone.list_networks
    looked ← look_for_hotspot d networks
    hotspot_look (hotspot_rounds n d) widened d looked

  -- The device over its hotspot, or none where open returns.
  unfoldable pub join_hotspot : ℕ → Device → Run W (Option Device)
  join_hotspot rounds d = do
    _ ← change (λ work. record work { stage = joining_hotspot; prompt = true })
    _ ← publish f phone config
    answer ← ask (phone.request_network (hotspot_wifi d.info))
    started ← hotspot_requested answer
    if started then hotspot_rounds rounds d (is_empty d.info.hotspot_bssid) else return none
