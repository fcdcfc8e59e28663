-- ===== src/Chromecast/Session/Join/Confirmed.antt =====
-- run_join reports a join as done only where the device was found on the network.
use phone.Prelude.Integers.{ℤ}
use phone.Prelude.Results.{Result, ok, error}
use phone.Prelude.{
  ℕ, zero, suc, ◌+◌, ◌≡◌, refl, Bool, true, false, not, ◌&&◌, [], Option, none, some, leb, ◌==◌,
  if-both,
}
use phone.Chromecast.Json.{Text, Numbers}
use phone.Chromecast.Protocol.{DeviceInfo, WifiNetwork, failed_state}
use phone.Chromecast.Protocol.Passwords.{
  Crypto, same_device, supported, needs_password, valid_passphrase, encrypt_password,
}
use phone.Chromecast.Session.World.{
  Endpoint, HttpResult, answered, no_answer, Device, Session, SessionConfig, Phone, Run, ◌>>=◌, get,
  sending, joining, finding, is_done,
}
use phone.Chromecast.Session.Devices.{on_target, fail}
use phone.Chromecast.Session.Devices.Quiet.{
  Ends, NotDone, Quiet, Ends->>=, Ends-return, Ends-ask, Ends-get, Ends-put, Ends-change,
  publish-Quiet, release_if-Quiet, read_info-Quiet, post-Quiet,
}
use phone.Chromecast.Session.Finish.Confirmed.{Confirmed, finish-Confirmed}
use phone.Chromecast.Session.Moved.{not_joined}
use phone.Chromecast.Session.Join.{
  chosen, still_there, previous_network, is_bad_request, after_joining, joined_or, probed,
  join_rounds, wait_for_join, after_sending, post_connect, send_network, contact, start_join,
  checked_join, join_network, run_join,
}
use phone.Chromecast.Session.Moved.Confirmed.{
  Ending, then-Ending, return-Ending, fail-Ending, find_rounds-Ending,
}

module _ {W Key : Type 0} (f : Numbers) (phone : Phone W) (config : SessionConfig) (c : Crypto Key)
    (target : WifiNetwork) (password : Text) (saving_rounds : ℕ) where
  abbrev Ending' : {A : Type 0} → Run W A → Type 0
  Ending' r = Ending f phone config target password saving_rounds r

  join_then :
      {A B : Type 0} (r : Run W A) (next : A → Run W B)
      → Quiet r
      → ((a : A) → Ending' (next a))
      → Ending' (r >>= next)
  join_then = then-Ending f phone config target password saving_rounds

  fail_join : (message : Text) (retry : Bool) → Ending' (fail f phone config message retry)
  fail_join = fail-Ending f phone config target password saving_rounds

  after_joining-Ending :
      (rounds : ℕ) (previous : Text) (left : Bool) (d : Device)
      → Ending'
          (after_joining f phone config c target password saving_rounds rounds previous left d)
  unfolding after_joining
  after_joining-Ending rounds previous left d =
      if-both Ending' left
        (Ends-get NotDone (Confirmed f phone config target password) _ (λ s p.
          join_then _ _ (release_if-Quiet f phone config s.hotspot_request) (λ _.
            join_then _ _ (Ends-put NotDone NotDone _ p) (λ _.
              join_then _ _
                (Ends-change NotDone NotDone (λ work. record work { stage = finding })
                  (λ s' p'. unfold is_done in refl))
                (λ _. join_then _ _ (publish-Quiet f phone config) (λ _.
                  find_rounds-Ending f phone config target password saving_rounds rounds d))))))
        (fail_join _ true)

  joined_or-Ending :
      (again : Bool → Device → Run W (Unit {0})) (left : Bool) (d : Device)
      → ((l : Bool) (d' : Device) → Ending' (again l d'))
      → Ending' (joined_or f phone config c target password saving_rounds again left d)
  unfolding joined_or not_joined
  joined_or-Ending again left d h = if-both Ending' (failed_state d.info.state) (fail_join _ _) (
      if-both Ending' (on_target d.info target)
        (finish-Confirmed f phone config target password saving_rounds d) (h _ d))

  probed-Ending :
      (again : ℕ → Bool → Device → Run W (Unit {0})) (over : Bool → Device → Run W (Unit {0}))
      (misses : ℕ) (left : Bool) (d : Device) (answer : Option DeviceInfo × Endpoint)
      → ((m : ℕ) (l : Bool) (d' : Device) → Ending' (again m l d'))
      → ((l : Bool) (d' : Device) → Ending' (over l d'))
      → Ending'
          (probed f phone config c target password saving_rounds again over misses left d answer)
  unfolding probed
  probed-Ending again over misses left d (none, probe) h k =
      if-both Ending' (leb 3 (misses + 1)) (k true d) (h (misses + 1) true d)
  probed-Ending again over misses left d (some info, probe) h k =
      if-both Ending' (same_device info d.info)
        (joined_or-Ending (again 0) left (record d { info = info; endpoint = probe }) (h 0))
        (h 0 left d)

  join_rounds-Ending :
      (n finding_rounds : ℕ) (previous : Text) (misses : ℕ) (left : Bool) (d : Device)
      → Ending' (
          join_rounds f phone config c target password saving_rounds n finding_rounds previous
            misses left d)
  unfolding join_rounds
  join_rounds-Ending zero finding_rounds previous misses left d =
      after_joining-Ending finding_rounds previous left d
  join_rounds-Ending (suc n) finding_rounds previous misses left d =
      join_then _ _ (Ends-ask NotDone phone.pause) (λ idle.
        if-both Ending' idle
          (join_then _ _ (read_info-Quiet f phone config d.endpoint) (λ answer.
            probed-Ending _ _ misses left d answer (join_rounds-Ending n finding_rounds previous)
              (after_joining-Ending finding_rounds previous)))
          (return-Ending f phone config target password saving_rounds))

  wait_for_join-Ending :
      (rounds finding_rounds : ℕ) (left : Bool) (d : Device)
      → Ending' (
          wait_for_join f phone config c target password saving_rounds rounds finding_rounds left d)
  unfolding wait_for_join
  wait_for_join-Ending rounds finding_rounds left d =
      join_then _ _
        (Ends-change NotDone NotDone (λ work. record work { stage = joining; device = d })
          (λ s p. unfold is_done in refl))
        (λ _.
          join_then _ _ (publish-Quiet f phone config)
            (λ _. join_rounds-Ending rounds finding_rounds (previous_network d) 0 left d))

  after_sending-Ending :
      (rounds finding_rounds : ℕ) (d : Device) (sent : HttpResult)
      → Ending' (
          after_sending f phone config c target password saving_rounds rounds finding_rounds d sent)
  unfolding after_sending
  after_sending-Ending rounds finding_rounds d (answered response) =
      if-both Ending' (response.status == 200) (wait_for_join-Ending rounds finding_rounds false d)
        (fail_join _ false)
  after_sending-Ending rounds finding_rounds d (no_answer problem) =
      if-both Ending' problem.sent (wait_for_join-Ending rounds finding_rounds true d)
        (fail_join _ false)

  send_network-Ending :
      (rounds finding_rounds : ℕ) (d : Device) (encrypted : Result Text)
      → Ending' (
          send_network f phone config c target password saving_rounds rounds finding_rounds d
            encrypted)
  unfolding send_network post_connect
  send_network-Ending rounds finding_rounds d (error message) = fail_join _ false
  send_network-Ending rounds finding_rounds d (ok encrypted) =
      join_then _ _ (post-Quiet f phone config d.endpoint _ _) (λ first.
        join_then _ _
          (if-both Quiet (is_bad_request first && (d.hotspot && d.info.keeps_hotspot))
            (post-Quiet f phone config d.endpoint _ _) (Ends-return NotDone first))
          (after_sending-Ending rounds finding_rounds d))

  contact-Ending :
      (rounds finding_rounds : ℕ) (d : Device) (o : Option Device)
      → Ending' (contact f phone config c target password saving_rounds rounds finding_rounds d o)
  unfolding contact
  contact-Ending rounds finding_rounds d none = fail_join _ false
  contact-Ending rounds finding_rounds d (some d') =
      send_network-Ending rounds finding_rounds d' (encrypt_password c d'.info.public_key password)

  start_join-Ending :
      (rounds finding_rounds : ℕ) (d : Device)
      → Ending' (start_join f phone config c target password saving_rounds rounds finding_rounds d)
  unfolding start_join
  start_join-Ending rounds finding_rounds d =
      join_then _ _ (read_info-Quiet f phone config d.endpoint)
        (λ answer. contact-Ending rounds finding_rounds d (still_there d answer))

module _ {W Key : Type 0} (f : Numbers) (phone : Phone W) (config : SessionConfig) (c : Crypto Key)
    (saving_rounds rounds finding_rounds : ℕ) where
  checked_join-Confirmed :
      (target : WifiNetwork) (password : Text) (d : Device)
      → Ends NotDone
          (Confirmed f phone config target password)
          (checked_join f phone config c saving_rounds rounds finding_rounds target password d)
  unfolding checked_join
  checked_join-Confirmed target password d =
      let E : Run W (Unit {0}) → Type 0 =
        λ r. Ends NotDone (Confirmed f phone config target password) r in
      if-both E (not (supported target))
        (fail_join f phone config c target password saving_rounds _ false)
        (if-both E (not (needs_password target))
          (start_join-Ending f phone config c target [] saving_rounds rounds finding_rounds d)
          (if-both E (not (valid_passphrase password))
            (fail_join f phone config c target password saving_rounds _ true)
            (start_join-Ending f phone config c target password saving_rounds rounds finding_rounds
              d)))

  join_network-Confirmed :
      (target : WifiNetwork) (password : Text) (d : Device)
      → Ends
          (λ _. Unit {0})
          (Confirmed f phone config target password)
          (join_network f phone config c saving_rounds rounds finding_rounds password d
            (some target))
  unfolding join_network
  join_network-Confirmed target password d =
      Ends->>= (λ _. Unit {0}) NotDone (Confirmed f phone config target password) _ _
        (Ends-change (λ _. Unit {0}) NotDone
          (λ work. record work {
            target = target.ssid;
            message = [];
            retry = false;
            joined = false;
            stage = sending;
          })
          (λ s p. unfold is_done in refl))
        (λ _.
          Ends->>= NotDone NotDone (Confirmed f phone config target password) _ _
            (publish-Quiet f phone config) (λ _. checked_join-Confirmed target password d))

-- Whatever the phone and the devices answer, and however many rounds the deadlines allow: when
-- run_join has ended for a network of the list with the stage kDone, the device was last read as
-- connected to that network, and not over its setup hotspot.
pub run_join-Confirmed :
    {W Key : Type 0} (f : Numbers) (phone : Phone W) (config : SessionConfig) (c : Crypto Key)
    (saving_rounds rounds finding_rounds : ℕ) (index : ℤ) (password : Text) (s : Session) (w : W)
    (target : WifiNetwork)
    → chosen s.work.networks index ≡ some target
    → let after =
        (run_join f phone config c saving_rounds rounds finding_rounds index password s w).1 in
      is_done after.work.stage ≡ true
      → (on_target after.work.device.info target ≡ true) × (after.work.device.hotspot ≡ false)
unfolding run_join get ◌>>=◌
run_join-Confirmed f phone config c saving_rounds rounds finding_rounds index password s w target
      e =
    rw e (
      join_network-Confirmed f phone config c saving_rounds rounds finding_rounds target password
        s.work.device s w tt)
