-- ===== src/Chromecast/Session/Join.antt =====
-- chromecast/session.cc: run_join. A loop with a deadline takes the number of its rounds before it.
pub mod Confirmed
pub mod Refused
use phone.Prelude.Integers.{ℤ, pos, negsuc, same_int, less_int}
use phone.Prelude.Texts.{bytes_of}
use phone.Prelude.Results.{Result, ok, error}
use phone.Prelude.{
  ℕ, zero, suc, ◌+◌, Bool, true, false, not, ◌&&◌, ◌||◌, List, [], ◌∷◌, ◌++◌, Option, none, some,
  leb, ◌==◌, if◌then◌else◌,
}
use phone.Chromecast.Json.{Text, Numbers, is_empty}
use phone.Chromecast.Protocol.{DeviceInfo, WifiNetwork, describe_state, failed_state, is_negative}
use phone.Chromecast.Protocol.Passwords.{
  supported, needs_password, valid_passphrase, same_device, Crypto, encrypt_password,
}
use phone.Chromecast.Protocol.Body.{decimal, connect_body}
use phone.Chromecast.Session.Known.{identified}
use phone.Chromecast.Session.World.{
  Endpoint, Response, HttpError, HttpResult, answered, no_answer, PhoneNetwork, Device, sending,
  joining, finding, Snapshot, Session, SessionConfig, Phone, Run, return, ◌>>=◌, ask, get,
  put_session, change, name_of,
}
use phone.Chromecast.Session.Devices.{
  is_connected, on_target, publish, release_if, fail, read_info, post, on_hotspot, find_devices,
  request_target,
}
use phone.Chromecast.Session.Finish.{finish}
use phone.Chromecast.Session.Moved.{not_joined, find_rounds}

unfoldable pub network_at : List WifiNetwork → ℕ → Option WifiNetwork
network_at [] i = none
network_at (n ∷ networks) zero = some n
network_at (n ∷ networks) (suc i) = network_at networks i

unfoldable pub chosen : List WifiNetwork → ℤ → Option WifiNetwork
chosen networks (pos i) = network_at networks i
chosen networks (negsuc i) = none

-- The answer of the device that was asked, where it is that device.
unfoldable pub still_there : Device → Option DeviceInfo × Endpoint → Option Device
still_there d (none, endpoint) = none
still_there d (some info, endpoint) =
    if identified d.info && not (same_device info d.info)
    then none
    else some (record d { info = info; endpoint = endpoint })

-- What the person is told the device stayed on.
unfoldable pub previous_network : Device → Text
previous_network d =
    if d.hotspot || is_empty d.info.ssid then bytes_of "its network" else d.info.ssid

unfoldable pub is_bad_request : HttpResult → Bool
is_bad_request (answered response) = response.status == 400
is_bad_request (no_answer problem) = false

unfoldable pub may_be_leaving : ℤ → Bool
may_be_leaving state = not (less_int state (pos 20)) && less_int state (pos 60)

module _ {W Key : Type 0} (f : Numbers) (phone : Phone W) (config : SessionConfig) (c : Crypto Key)
    (target : WifiNetwork) (password : Text) (saving_rounds : ℕ) where
  -- What follows the loop that waits for the join.
  unfoldable pub after_joining : ℕ → Text → Bool → Device → Run W (Unit {0})
  after_joining rounds previous left d =
      let stayed =
        fail f phone config
          (name_of d
            ++ bytes_of " stayed on "
            ++ previous
            ++ bytes_of ". Check the password and that "
            ++ target.ssid
            ++ bytes_of " is in range.")
          true in
      let moved = do
        s ← get
        _ ← release_if f phone config s.hotspot_request
        _ ← put_session (record s { hotspot_request = negsuc 0 })
        _ ← change (λ work. record work { stage = finding })
        _ ← publish f phone config
        find_rounds f phone config target password saving_rounds rounds d
      in if left then moved else stayed

  -- A round with an answer of the device itself; `again` is the next round.
  unfoldable pub joined_or : (Bool → Device → Run W (Unit {0})) → Bool → Device → Run W (Unit {0})
  joined_or again left d =
      if failed_state d.info.state
      then not_joined f phone config target password saving_rounds d d.info.state
          (same_int d.info.state (pos 31) || same_int d.info.state (pos 32))
      else if on_target d.info target
      then finish f phone config target password saving_rounds d
      else again (left || may_be_leaving d.info.state) d

  -- A round with what read_info gave; `again` and `over` are the next round and the loop's end.
  unfoldable pub probed :
      (ℕ → Bool → Device → Run W (Unit {0}))
      → (Bool → Device → Run W (Unit {0}))
      → ℕ
      → Bool
      → Device
      → Option DeviceInfo × Endpoint
      → Run W (Unit {0})
  probed again over misses left d (none, probe) =
      if leb 3 (misses + 1) then over true d else again (misses + 1) true d
  probed again over misses left d (some info, probe) =
      if same_device info d.info
      then joined_or (again 0) left (record d { info = info; endpoint = probe })
      else again 0 left d

  unfoldable pub join_rounds : ℕ → ℕ → Text → ℕ → Bool → Device → Run W (Unit {0})
  join_rounds zero finding_rounds previous misses left d =
      after_joining finding_rounds previous left d
  join_rounds (suc n) finding_rounds previous misses left d =
      let round = do
        answer ← read_info f phone config d.endpoint
        probed (join_rounds n finding_rounds previous) (after_joining finding_rounds previous)
            misses left d answer
      in do idle ← ask phone.pause; if idle then round else return tt

  unfoldable pub wait_for_join : ℕ → ℕ → Bool → Device → Run W (Unit {0})
  wait_for_join rounds finding_rounds left d = do
    _ ← change (λ work. record work { stage = joining; device = d })
    _ ← publish f phone config
    join_rounds rounds finding_rounds (previous_network d) 0 left d

  -- The answer to connect_wifi; one that was dropped after it was sent may have been accepted.
  unfoldable pub after_sending : ℕ → ℕ → Device → HttpResult → Run W (Unit {0})
  after_sending rounds finding_rounds d (answered response) =
      if response.status == 200
      then wait_for_join rounds finding_rounds false d
      else fail f phone config
          (bytes_of "The Chromecast refused the network (HTTP "
            ++ decimal response.status
            ++ bytes_of ").")
          false
  after_sending rounds finding_rounds d (no_answer problem) =
      if problem.sent
      then wait_for_join rounds finding_rounds true d
      else fail f phone config
          (bytes_of "Could not send the network to "
            ++ name_of d
            ++ bytes_of ": "
            ++ problem.message)
          false

  unfoldable pub post_connect : Device → Text → Bool → Run W HttpResult
  post_connect d encrypted keep =
      post f phone config d.endpoint (bytes_of "/setup/connect_wifi")
        (connect_body target encrypted keep)

  unfoldable pub send_network : ℕ → ℕ → Device → Result Text → Run W (Unit {0})
  send_network rounds finding_rounds d (error message) =
      fail f phone config (bytes_of message) false
  send_network rounds finding_rounds d (ok encrypted) =
      let keep = d.hotspot && d.info.keeps_hotspot in
      do
        first ← post_connect d encrypted keep
        sent ←
            (if is_bad_request first && keep then post_connect d encrypted false else return first)
        after_sending rounds finding_rounds d sent

  unfoldable pub contact : ℕ → ℕ → Device → Option Device → Run W (Unit {0})
  contact rounds finding_rounds d none =
      fail f phone config (bytes_of "Lost contact with " ++ name_of d ++ bytes_of ".") false
  contact rounds finding_rounds d (some d') =
      send_network rounds finding_rounds d' (encrypt_password c d'.info.public_key password)

  -- run_join once the password is accepted.
  unfoldable pub start_join : ℕ → ℕ → Device → Run W (Unit {0})
  start_join rounds finding_rounds d = do
    answer ← read_info f phone config d.endpoint
    contact rounds finding_rounds d (still_there d answer)

module _ {W Key : Type 0} (f : Numbers) (phone : Phone W) (config : SessionConfig) (c : Crypto Key)
    (saving_rounds rounds finding_rounds : ℕ) where
  unfoldable pub checked_join : WifiNetwork → Text → Device → Run W (Unit {0})
  checked_join target password d =
      if not (supported target)
      then fail f phone config
          (bytes_of "The Chromecast cannot join this network's type of security.") false
      else if not (needs_password target)
      then start_join f phone config c target [] saving_rounds rounds finding_rounds d
      else if not (valid_passphrase password)
      then fail f phone config (bytes_of "Wi-Fi passwords have 8 to 63 characters.") true
      else start_join f phone config c target password saving_rounds rounds finding_rounds d

  unfoldable pub join_network : Text → Device → Option WifiNetwork → Run W (Unit {0})
  join_network password d none = return tt
  join_network password d (some target) = do
    _ ← change (λ work. record work {
      target = target.ssid;
      message = [];
      retry = false;
      joined = false;
      stage = sending;
    })
    _ ← publish f phone config
    checked_join target password d

  unfoldable pub run_join : ℤ → Text → Run W (Unit {0})
  run_join index password = do
    s ← get
    join_network password s.work.device (chosen s.work.networks index)
