-- ===== src/Chromecast/Session/Moved.antt =====
-- chromecast/session.cc: the part of run_join that looks for a device that left its network. A loop with a deadline takes the number of its rounds before it.
pub mod Confirmed
use phone.Prelude.Integers.{ℤ, pos, less_int}
use phone.Prelude.Texts.{bytes_of}
use phone.Prelude.{ℕ, zero, suc, Bool, true, false, not, ◌&&◌, List, [], ◌∷◌, ◌++◌, if◌then◌else◌}
use phone.Chromecast.Json.{Text, Numbers, is_empty}
use phone.Chromecast.Protocol.{WifiNetwork, describe_state, failed_state, is_negative}
use phone.Chromecast.Protocol.Passwords.{same_device}
use phone.Chromecast.Session.World.{
  PhoneNetwork, Device, SessionConfig, Phone, Run, return, ◌>>=◌, ask, get, name_of,
}
use phone.Chromecast.Session.Devices.{on_target, fail, on_hotspot, find_devices, request_target}
use phone.Chromecast.Session.Finish.{finish}

module _ {W : Type 0} (f : Numbers) (phone : Phone W) (config : SessionConfig)
    (target : WifiNetwork) (password : Text) (saving_rounds : ℕ) where
  unfoldable pub not_joined : Device → ℤ → Bool → Run W (Unit {0})
  not_joined d state retry =
      fail f phone config
        (name_of d
          ++ bytes_of " could not join "
          ++ target.ssid
          ++ bytes_of ": "
          ++ describe_state state
          ++ bytes_of ".")
        retry

  unfoldable pub went_back : Device → Text → Run W (Unit {0})
  went_back d ssid =
      fail f phone config
        (name_of d
          ++ bytes_of " could not join "
          ++ target.ssid
          ++ bytes_of " and went back to "
          ++ ssid
          ++ bytes_of ". Check the password and that the network is in range.")
        true

  -- One device found; whether run_join returns for it.
  unfoldable pub judge : Device → Device → Run W Bool
  judge d found =
      let finished = do
        _ ←
            finish f phone config target password saving_rounds
              (record found { info = record found.info { public_key = d.info.public_key } })
        return true
      in let failed = do _ ← not_joined d found.info.state true; return true
        in let back = do _ ← went_back d found.info.ssid; return true
          in if not (same_device found.info d.info)
            then return false
            else if on_target found.info target
            then finished
            else if failed_state found.info.state
            then failed
            else if not (is_empty found.info.ssid) && not (less_int found.info.state (pos 60))
            then back
            else return false

  -- The first step that returns true ends the search.
  unfoldable pub or_then : Run W Bool → Run W Bool → Run W Bool
  or_then first later = do returned ← first; if returned then return true else later

  unfoldable pub judge_all : Device → List Device → Run W Bool
  judge_all d [] = return false
  judge_all d (found ∷ others) = or_then (judge d found) (judge_all d others)

  unfoldable pub look_on : Device → List PhoneNetwork → Run W Bool
  look_on d [] = return false
  look_on d (n ∷ networks) =
      let search = do
        found ← find_devices f phone config n (phone.parse_address d.info.ip ∷ [])
        judge_all d found
      in do
        stop ← ask phone.interrupted
        if stop
            then return true
            else if on_hotspot f phone config n
            then look_on d networks
            else or_then search (look_on d networks)

  -- Whether the phone is asked to join the network too; false where run_join returns.
  unfoldable pub ask_later : Run W Bool
  ask_later = do
    long ← ask phone.waited_long
    if long then request_target f phone config target password else return true

  unfoldable pub ask_phone : Run W Bool
  ask_phone = do s ← get; if is_negative s.target_request then ask_later else return true

  -- The loop that looks for the device after it left.
  unfoldable pub find_rounds : ℕ → Device → Run W (Unit {0})
  find_rounds zero d =
      fail f phone config
        (bytes_of "Could not find "
          ++ name_of d
          ++ bytes_of " on "
          ++ target.ssid
          ++ bytes_of
              ". Its connection is not confirmed. Connect this phone to that Wi-Fi in Settings, "
          ++ bytes_of "then search again. Check the TV for a connection error.")
        false
  find_rounds (suc n) d =
      let again = do idle ← ask phone.pause; if idle then find_rounds n d else return tt
      in let go_on = do asked ← ask_phone; if asked then again else return tt
        in do
          networks ← ask phone.list_networks
          returned ← look_on d networks
          if returned then return tt else go_on
