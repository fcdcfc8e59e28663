-- ===== src/Chromecast/Session/Finish.antt =====
-- chromecast/session.cc: finish. A loop with a deadline takes the number of its rounds before it.
pub mod Confirmed
use phone.Prelude.Integers.{ℤ, pos, negsuc, same_int}
use phone.Prelude.Texts.{bytes_of}
use phone.Prelude.{
  ℕ, zero, suc, Bool, true, false, not, ◌&&◌, ◌||◌, List, [], ◌∷◌, ◌++◌, Option, none, some, ◌==◌,
  if◌then◌else◌,
}
use phone.Chromecast.Json.{Text, Numbers, is_empty}
use phone.Chromecast.Protocol.{DeviceInfo, WifiNetwork, parse_info}
use phone.Chromecast.Protocol.Passwords.{same_device}
use phone.Chromecast.Session.World.{
  Endpoint, Response, HttpResult, answered, no_answer, Device, saving, done, Snapshot,
  SessionConfig, Phone, Run, return, ◌>>=◌, ask, change, name_of,
}
use phone.Chromecast.Session.Devices.{
  is_connected, on_target, publish, release_requests, fail, read_info, post, find_on_lan,
  request_target, network_saved, remember_device,
}

-- How the loop that saves ends: `abandoned` where finish returns from it.
pub data Saving : Type 0 where
  confirmed unconfirmed : Device → Saving
  abandoned : Saving

-- The device with what read_info gave, where that is the same device.
unfoldable pub refreshed : Device → Option DeviceInfo × Endpoint → Option Device
refreshed d (none, endpoint) = none
refreshed d (some info, endpoint) =
    if same_device info d.info then some (record d { info = info; endpoint = endpoint }) else none

unfoldable pub with_state : Device → Option DeviceInfo → Device
with_state d none = d
with_state d (some answer) =
    if is_connected answer.state
    then record d { info = record d.info { state = answer.state } }
    else d

-- The device after the answer to save_wifi, if that was accepted.
unfoldable pub after_save : Numbers → Device → HttpResult → Option Device
after_save f d (no_answer error) = none
after_save f d (answered response) =
    if response.status == 200 then some (with_state d (parse_info f response.body)) else none

-- What is added to the message of success.
unfoldable pub success_note : Device → Text
success_note d =
    if same_int d.info.state (pos 62)
    then bytes_of " Chromecast still needs an update. Wait for Ready to Cast on the TV."
    else if same_int d.info.state (pos 63) || same_int d.info.state (pos 64)
    then bytes_of " Finish Chromecast setup in Google Home to leave the Welcome screen."
    else if not (is_empty d.info.ip)
    then bytes_of " " ++ name_of d ++ bytes_of " is at " ++ d.info.ip ++ bytes_of "."
    else []

module _ {W : Type 0} (f : Numbers) (phone : Phone W) (config : SessionConfig)
    (target : WifiNetwork) (password : Text) where
  unfoldable pub lost_target : Device → Run W (Unit {0})
  lost_target d = do
    _ ← change (λ work. record work { joined = false })
    fail f phone config
        (name_of d
          ++ bytes_of " did not stay on "
          ++ target.ssid
          ++ bytes_of ". Try connecting again.")
        true

  -- The rest of a round once save_wifi was answered; `again` is the next round.
  unfoldable pub recheck : (Device → Run W Saving) → Device → Option Device → Run W Saving
  recheck again d none = again d
  recheck again d (some d') = do
    saved ← network_saved f phone config d' target
    if saved then return (confirmed d') else again d'

  unfoldable pub save_on : (Device → Run W Saving) → Device → Run W Saving
  save_on again d =
      let save = do
        response ← post f phone config d.endpoint (bytes_of "/setup/save_wifi") []
        recheck again d (after_save f d response)
      in do
        saved ← network_saved f phone config d target
        if saved then return (confirmed d) else save

  unfoldable pub check_target : (Device → Run W Saving) → Device → Run W Saving
  check_target again d =
      let lost = do _ ← lost_target d; return abandoned
      in if on_target d.info target then save_on again d else lost

  -- A round where the device was not found in the place it had.
  unfoldable pub relocate : (Device → Run W Saving) → Device → Option Device → Run W Saving
  relocate again d (some found) = check_target again found
  relocate again d none = do
    asked ← request_target f phone config target password
    if asked then again d else return abandoned

  unfoldable pub locate : (Device → Run W Saving) → Device → Option Device → Run W Saving
  locate again d (some d') = check_target again d'
  locate again d none = do found ← find_on_lan f phone config d.info; relocate again d found

  -- The loop over the attempts; only the first is not preceded by a pause.
  unfoldable pub save_attempts : ℕ → Bool → Device → Run W Saving
  save_attempts zero first d = return (unconfirmed d)
  save_attempts (suc n) first d =
      let attempt = do
        answer ← read_info f phone config d.endpoint
        locate (save_attempts n false) d (refreshed d answer)
      in let paused = do idle ← ask phone.pause; if idle then attempt else return abandoned
        in do
          stop ← ask phone.interrupted
          if stop then return abandoned else if first then attempt else paused

  unfoldable pub pause_before : Run W (Option Device) → Run W (Option Device)
  pause_before again = do idle ← ask phone.pause; if idle then again else return none

  unfoldable pub found_again : Run W (Option Device) → Option Device → Run W (Option Device)
  found_again later (some found) = return (some found)
  found_again later none = later

  unfoldable pub search_lan : Device → Run W (Option Device) → Run W (Option Device)
  search_lan d later = do found ← find_on_lan f phone config d.info; found_again later found

  -- The loop that looks for a device saved over its hotspot; none where finish returns from it.
  unfoldable pub verify_rounds : ℕ → Device → Run W (Option Device)
  verify_rounds zero d = return (some d)
  verify_rounds (suc n) d =
      let later = do
        asked ← request_target f phone config target password
        if asked then pause_before (verify_rounds n d) else return none
      in let look = do
        stop ← ask phone.interrupted
        if stop then return none else search_lan d later
        in if d.hotspot then look else return (some d)

  unfoldable pub succeed : Device → Run W (Unit {0})
  succeed d = do
    _ ← remember_device f phone config d.info
    _ ← release_requests f phone config
    _ ← change (λ work. record work {
      device = d;
      stage = done;
      message = bytes_of "Wi-Fi saved on " ++ target.ssid ++ bytes_of "." ++ success_note d;
    })
    publish f phone config

  unfoldable pub conclude : Device → Run W (Unit {0})
  conclude d =
      let unverified =
        fail f phone config
          (bytes_of "Wi-Fi was saved, but "
            ++ name_of d
            ++ bytes_of " could not be verified on "
            ++ target.ssid
            ++ bytes_of ". Setup is unfinished. Check the TV, then search again.")
          false in
      if d.hotspot || not (on_target d.info target) then unverified else succeed d

  unfoldable pub conclude_unless : Option Device → Run W (Unit {0})
  conclude_unless none = return tt
  conclude_unless (some d) = do stop ← ask phone.interrupted; if stop then return tt else conclude d

  -- What follows the loop that saves.
  unfoldable pub after_saving : ℕ → Saving → Run W (Unit {0})
  after_saving rounds abandoned = return tt
  after_saving rounds (unconfirmed d) =
      let unsaved = do
        _ ← remember_device f phone config d.info
        fail f phone config
            (name_of d
              ++ bytes_of " joined "
              ++ target.ssid
              ++ bytes_of " but did not confirm saving Wi-Fi. Setup is unfinished. Try again.")
            true
      in do stop ← ask phone.interrupted; if stop then return tt else unsaved
  after_saving rounds (confirmed d) =
      let verify = do
        _ ← remember_device f phone config d.info
        located ← verify_rounds rounds d
        conclude_unless located
      in do stop ← ask phone.interrupted; if stop then return tt else verify

  unfoldable pub finish : ℕ → Device → Run W (Unit {0})
  finish rounds d = do
    _ ← change (λ work. record work { joined = true; prompt = false; stage = saving; device = d })
    _ ← publish f phone config
    outcome ← save_attempts 4 true d
    after_saving rounds outcome
