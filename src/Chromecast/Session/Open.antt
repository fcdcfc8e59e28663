-- ===== src/Chromecast/Session/Open.antt =====
-- chromecast/session.cc: scan, open and run_open. The rounds are those of join_hotspot.
pub mod Retried
use phone.Prelude.Integers.{ℤ, pos, negsuc}
use phone.Prelude.Texts.{bytes_of}
use phone.Prelude.{
  ℕ, zero, suc, Bool, true, false, not, ◌&&◌, ◌||◌, List, [], ◌∷◌, ◌++◌, Option, none, some, ltb,
  leb, ◌==◌, if◌then◌else◌,
}
use phone.Chromecast.Json.{Text, Json, Numbers, is_empty}
use phone.Chromecast.Json.Parser.{parse_json}
use phone.Chromecast.Protocol.{
  DeviceInfo, WifiNetwork, is_negative, is_object, is_array, root_of, first_array,
}
use phone.Chromecast.Protocol.Scanning.{parse_scan, scan_keys}
use phone.Chromecast.Protocol.Body.{decimal}
use phone.Chromecast.Session.World.{
  Endpoint, Response, HttpError, HttpResult, answered, no_answer, PhoneNetwork, WifiRequest,
  Requested, requested, refused, Device, joining_hotspot, scanning, networks_listed, Snapshot,
  Session, SessionConfig, Phone, Run, return, ◌>>=◌, ask, get, put_session, change, name_of,
}
use phone.Chromecast.Session.Devices.{
  publish, release_if, release_requests, fail, on_hotspot, read_info, post,
}
use phone.Chromecast.Session.Finish.{refreshed}
use phone.Chromecast.Session.Join.{still_there}
use phone.Chromecast.Session.Search.{remembered, new_snapshot}
use phone.Chromecast.Session.Hotspot.{join_hotspot}

-- How the loop that reads the scan ends.
pub data Scan : Type 0 where
  scanned : List WifiNetwork → Scan
  scan_failed : Text → Scan
  scan_stopped : Scan

-- Whether the answer has a list of rows.
unfoldable pub has_rows : Option Json → Bool
has_rows none = false
has_rows (some root) = is_array (if is_object root then first_array root scan_keys else some root)

unfoldable pub device_at : List Device → ℕ → Device
device_at [] i = new_snapshot.device
device_at (d ∷ devices) zero = d
device_at (d ∷ devices) (suc i) = device_at devices i

-- The device at the index, or a new one.
unfoldable pub opened_at : List Device → ℤ → Device
opened_at devices (pos i) = device_at devices i
opened_at devices (negsuc i) = new_snapshot.device

module _ {W : Type 0} (f : Numbers) (phone : Phone W) (config : SessionConfig) where
  -- The error that an answer with scan results leaves, and the networks otherwise.
  unfoldable pub read_results : Device → HttpResult → Scan
  read_results d (no_answer problem) = scan_failed (
      bytes_of "Lost contact with "
      ++ name_of d
      ++ bytes_of " while reading its Wi-Fi scan. Try again to reconnect.")
  read_results d (answered response) =
      if not (response.status == 200)
      then scan_failed (
          bytes_of "The Chromecast refused to return its Wi-Fi scan (HTTP "
          ++ decimal response.status
          ++ bytes_of ").")
      else if not (has_rows (root_of (parse_json f response.body)))
      then scan_failed
          (bytes_of "The Chromecast returned an invalid Wi-Fi scan. Try scanning again.")
      else scanned (parse_scan f response.body)

  -- The loop ends with the first networks that are not empty.
  unfoldable pub after_results : (Scan → Run W Scan) → Scan → Run W Scan
  after_results again (scanned (n ∷ networks)) = return (scanned (n ∷ networks))
  after_results again other = again other

  -- The loop over the attempts; its last answer is what it ends with.
  unfoldable pub scan_attempts : ℕ → Device → Scan → Run W Scan
  scan_attempts zero d last = return last
  scan_attempts (suc n) d last =
      let attempt = do
        results ←
            ask (phone.request d.endpoint (bytes_of "GET") (bytes_of "/setup/scan_results") [])
        after_results (scan_attempts n d) (read_results d results)
      in do idle ← ask phone.pause; if idle then attempt else return scan_stopped

  unfoldable pub show_scan : Scan → Run W (Unit {0})
  show_scan scan_stopped = return tt
  show_scan (scan_failed problem) = fail f phone config problem true
  show_scan (scanned networks) = do
    _ ← change (λ work. record work {
      networks = networks;
      message = message_for networks;
      stage = networks_listed;
    })
    publish f phone config
    where
      message_for : List WifiNetwork → Text
      message_for [] = bytes_of "The Chromecast found no Wi-Fi networks."
      message_for (n ∷ ns) = []

  unfoldable pub read_scan : Device → Run W (Unit {0})
  read_scan d = do outcome ← scan_attempts 6 d (scanned []); show_scan outcome

  unfoldable pub scan_started : Device → HttpResult → Run W (Unit {0})
  scan_started d (no_answer problem) =
      if problem.sent
      then read_scan d
      else fail f phone config (bytes_of "Could not start the Wi-Fi scan: " ++ problem.message) true
  scan_started d (answered response) =
      if ltb response.status 200 || leb 300 response.status
      then fail f phone config
          (bytes_of "The Chromecast refused the Wi-Fi scan (HTTP "
            ++ decimal response.status
            ++ bytes_of ").")
          true
      else read_scan d

  unfoldable pub scan : Run W (Unit {0})
  scan = do
    s ← get
    _ ← change (λ work. record work { stage = scanning; networks = [] })
    _ ← publish f phone config
    started ← post f phone config s.work.device.endpoint (bytes_of "/setup/scan_wifi") []
    scan_started s.work.device started

  unfoldable pub scan_device : Option Device → Run W (Unit {0})
  scan_device none = return tt
  scan_device (some d) = do _ ← change (λ work. record work { device = d }); scan

  unfoldable pub release_target : Run W (Unit {0})
  release_target = do
    s ← get
    _ ← release_if f phone config s.target_request
    put_session (record s { target_request = negsuc 0 })

  -- A device that answered at its place; its hotspot is kept where it was reached over that.
  unfoldable pub keep_hotspot : Device → Run W (Unit {0})
  keep_hotspot d =
      let release = do
        s ← get
        _ ← release_if f phone config s.hotspot_request
        put_session (record s { hotspot_request = negsuc 0 })
      in if d.hotspot then return tt else release

  unfoldable pub reach : ℕ → Device → Option Device → Run W (Unit {0})
  reach rounds d (some d') = do _ ← keep_hotspot d'; scan_device (some d')
  reach rounds d none = do
    _ ← release_requests f phone config
    joined ← join_hotspot f phone config rounds (record d { reachable = false; hotspot = false })
    scan_device joined

  unfoldable pub try_device : Device → Run W (Option Device)
  try_device d =
      let try = do answer ← read_info f phone config d.endpoint; return (refreshed d answer)
      in if d.reachable then try else return none

  unfoldable pub open_with : ℕ → Device → Run W (Unit {0})
  open_with rounds d =
      let go_on = λ (reached : Option Device). do _ ← release_target; reach rounds d reached
      in do
        _ ← change (λ work. record work {
          device = d;
          networks = [];
          target = [];
          message = [];
          retry = false;
          stage = scanning;
        })
        _ ← publish f phone config
        reached ← try_device d
        stop ← ask phone.interrupted
        if stop then return tt else go_on reached

  unfoldable pub run_open : ℕ → ℤ → Run W (Unit {0})
  run_open rounds index = do s ← get; open_with rounds (opened_at s.work.devices index)

  -- The command kRescan.
  unfoldable pub run_rescan : ℕ → Run W (Unit {0})
  run_rescan rounds = do s ← get; open_with rounds s.work.device
