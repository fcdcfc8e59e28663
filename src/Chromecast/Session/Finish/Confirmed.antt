-- ===== src/Chromecast/Session/Finish/Confirmed.antt =====
-- finish reports a join as done only where the device was found on the network.
use phone.Prelude.{
  ℕ, zero, suc, ◌≡◌, refl, Bool, true, false, not, ◌||◌, [], Option, none, some, if-both, if-each,
}
use phone.Chromecast.Json.{Text, Numbers}
use phone.Chromecast.Protocol.{WifiNetwork}
use phone.Chromecast.Session.World.{
  Device, Snapshot, Session, SessionConfig, Phone, Run, return, ◌>>=◌, is_done, saving,
}
use phone.Chromecast.Session.Devices.{on_target, fail}
use phone.Chromecast.Session.Devices.Quiet.{
  Ends, NotDone, Quiet, Ends->>=, Ends-return, Ends-ask, Ends-change, then-Quiet, ask-Quiet,
  publish-Ends, publish-Quiet, release_requests-Quiet, fail-Quiet, read_info-Quiet, post-Quiet,
  find_on_lan-Quiet, request_target-Quiet, network_saved-Quiet, remember_device-Quiet,
}
use phone.Chromecast.Session.Finish.{
  Saving, confirmed, unconfirmed, abandoned, refreshed, after_save, lost_target, recheck, save_on,
  check_target, relocate, locate, save_attempts, verify_rounds, found_again, pause_before,
  search_lan, succeed, conclude, conclude_unless, after_saving, finish,
}

module _ {W : Type 0} (f : Numbers) (phone : Phone W) (config : SessionConfig)
    (target : WifiNetwork) (password : Text) where
  -- A snapshot that says done has a device that is on the target, over a network of the phone's.
  abbrev pub IsConfirmed : Snapshot → Type 0
  IsConfirmed work =
      is_done work.stage ≡ true
      → (on_target work.device.info target ≡ true) × (work.device.hotspot ≡ false)

  abbrev pub Confirmed : Session → Type 0
  Confirmed s = IsConfirmed s.work

  pub NotDone-Confirmed : (s : Session) → NotDone s → Confirmed s
  NotDone-Confirmed s p h = absurd cc

  -- A part that leaves the stage alone is one that may end a join.
  pub Quiet-end : {A : Type 0} (r : Run W A) → Quiet r → Ends NotDone Confirmed r
  Quiet-end r q s w p = NotDone-Confirmed (r s w).1 (q s w p)

  pub then_end :
      {A B : Type 0} (r : Run W A) (next : A → Run W B)
      → Quiet r
      → ((a : A) → Ends NotDone Confirmed (next a))
      → Ends NotDone Confirmed (r >>= next)
  then_end r next = Ends->>= NotDone NotDone Confirmed r next

  lost_target-Quiet : (d : Device) → Quiet (lost_target f phone config target password d)
  unfolding lost_target
  lost_target-Quiet d =
      then-Quiet _ _ (Ends-change NotDone NotDone _ (λ s p. p))
        (λ _. fail-Quiet f phone config _ true)

  module _ (again : Device → Run W Saving) (later : (d : Device) → Quiet (again d)) where
    recheck-Quiet :
        (d : Device) (o : Option Device) → Quiet (recheck f phone config target password again d o)
    unfolding recheck
    recheck-Quiet d none = later d
    recheck-Quiet d (some d') =
        then-Quiet _ _ (network_saved-Quiet f phone config d' target)
          (λ saved. if-both Quiet saved (Ends-return NotDone _) (later d'))

    check_target-Quiet : (d : Device) → Quiet (check_target f phone config target password again d)
    unfolding check_target save_on
    check_target-Quiet d =
        if-both Quiet (on_target d.info target)
          (then-Quiet _ _ (network_saved-Quiet f phone config d target) (λ saved.
            if-both Quiet saved (Ends-return NotDone _) (
              then-Quiet _ _ (post-Quiet f phone config d.endpoint _ [])
                (λ response. recheck-Quiet d (after_save f d response)))))
          (then-Quiet _ _ (lost_target-Quiet d) (λ _. Ends-return NotDone abandoned))

    relocate-Quiet :
        (d : Device) (o : Option Device) → Quiet (relocate f phone config target password again d o)
    unfolding relocate
    relocate-Quiet d (some found) = check_target-Quiet found
    relocate-Quiet d none =
        then-Quiet _ _ (request_target-Quiet f phone config target password)
          (λ asked. if-both Quiet asked (later d) (Ends-return NotDone abandoned))

    locate-Quiet :
        (d : Device) (o : Option Device) → Quiet (locate f phone config target password again d o)
    unfolding locate
    locate-Quiet d (some d') = check_target-Quiet d'
    locate-Quiet d none =
        then-Quiet _ _ (find_on_lan-Quiet f phone config d.info) (relocate-Quiet d)

  save_attempts-Quiet :
      (n : ℕ) (first : Bool) (d : Device)
      → Quiet (save_attempts f phone config target password n first d)
  unfolding save_attempts
  save_attempts-Quiet zero first d = Ends-return NotDone (unconfirmed d)
  save_attempts-Quiet (suc n) first d =
      let attempt = then-Quiet _ _ (read_info-Quiet f phone config d.endpoint) (λ answer.
        locate-Quiet (save_attempts f phone config target password n false)
          (save_attempts-Quiet n false) d (refreshed d answer)) in
      ask-Quiet _ _ (λ stop. if-both Quiet stop (Ends-return NotDone abandoned) (
        if-both Quiet first attempt
          (ask-Quiet _ _ (λ idle. if-both Quiet idle attempt (Ends-return NotDone abandoned)))))

  found_again-Quiet :
      (later : Run W (Option Device)) (o : Option Device)
      → Quiet later
      → Quiet (found_again f phone config target password later o)
  unfolding found_again
  found_again-Quiet later (some found) h = Ends-return NotDone (some found)
  found_again-Quiet later none h = h

  verify_rounds-Quiet :
      (n : ℕ) (d : Device) → Quiet (verify_rounds f phone config target password n d)
  unfolding verify_rounds pause_before search_lan
  verify_rounds-Quiet zero d = Ends-return NotDone (some d)
  verify_rounds-Quiet (suc n) d =
      let later = then-Quiet _ _ (request_target-Quiet f phone config target password) (λ asked.
        if-both Quiet asked
          (ask-Quiet _ _
            (λ idle. if-both Quiet idle (verify_rounds-Quiet n d) (Ends-return NotDone none)))
          (Ends-return NotDone none)) in
      if-both Quiet d.hotspot
        (ask-Quiet _ _ (λ stop. if-both Quiet stop (Ends-return NotDone none) (
          then-Quiet _ _ (find_on_lan-Quiet f phone config d.info)
            (λ found. found_again-Quiet _ found later))))
        (Ends-return NotDone (some d))

  succeed-Confirmed :
      (d : Device)
      → on_target d.info target ≡ true
      → d.hotspot ≡ false
      → Ends NotDone Confirmed (succeed f phone config target password d)
  unfolding succeed
  succeed-Confirmed d there home = then_end _ _ (remember_device-Quiet f phone config d.info) (λ _.
      then_end _ _ (release_requests-Quiet f phone config) (λ _.
        Ends->>= NotDone Confirmed Confirmed _ _
          (Ends-change NotDone Confirmed _ (λ s p h. (there, home)))
          (λ _. publish-Ends f phone config IsConfirmed)))

  conclude-Confirmed :
      (d : Device) → Ends NotDone Confirmed (conclude f phone config target password d)
  unfolding conclude
  conclude-Confirmed d =
      if-each (Ends NotDone Confirmed) (d.hotspot || not (on_target d.info target))
        (λ _. Quiet-end (fail f phone config _ false) (fail-Quiet f phone config _ false))
        (λ h.
          succeed-Confirmed d (passed d.hotspot (on_target d.info target) h).1
            (passed d.hotspot (on_target d.info target) h).0)
    where
      passed : (a b : Bool) → (a || not b) ≡ false → (a ≡ false) × (b ≡ true)
      passed true b h = absurd cc
      passed false true h = (refl, refl)
      passed false false h = absurd cc

  conclude_unless-Confirmed :
      (o : Option Device)
      → Ends NotDone Confirmed (conclude_unless f phone config target password o)
  unfolding conclude_unless
  conclude_unless-Confirmed none = Quiet-end (return tt) (Ends-return NotDone tt)
  conclude_unless-Confirmed (some d) = then_end _ _ (Ends-ask NotDone phone.interrupted) (λ stop.
      if-both (Ends NotDone Confirmed) stop (Quiet-end (return tt) (Ends-return NotDone tt))
        (conclude-Confirmed d))

  after_saving-Confirmed :
      (rounds : ℕ) (outcome : Saving)
      → Ends NotDone Confirmed (after_saving f phone config target password rounds outcome)
  unfolding after_saving
  after_saving-Confirmed rounds abandoned = Quiet-end (return tt) (Ends-return NotDone tt)
  after_saving-Confirmed rounds (unconfirmed d) =
      then_end _ _ (Ends-ask NotDone phone.interrupted) (λ stop.
        if-both (Ends NotDone Confirmed) stop (Quiet-end (return tt) (Ends-return NotDone tt)) (
          then_end _ _ (remember_device-Quiet f phone config d.info)
            (λ _. Quiet-end (fail f phone config _ true) (fail-Quiet f phone config _ true))))
  after_saving-Confirmed rounds (confirmed d) =
      then_end _ _ (Ends-ask NotDone phone.interrupted) (λ stop.
        if-both (Ends NotDone Confirmed) stop (Quiet-end (return tt) (Ends-return NotDone tt)) (
          then_end _ _ (remember_device-Quiet f phone config d.info)
            (λ _. then_end _ _ (verify_rounds-Quiet rounds d) conclude_unless-Confirmed)))

  pub finish-Confirmed :
      (rounds : ℕ) (d : Device)
      → Ends NotDone Confirmed (finish f phone config target password rounds d)
  unfolding finish
  finish-Confirmed rounds d =
      then_end _ _
        (Ends-change NotDone NotDone
          (λ work. record work { joined = true; prompt = false; stage = saving; device = d })
          (λ s p. unfold is_done in refl))
        (λ _.
          then_end _ _ (publish-Quiet f phone config)
            (λ _. then_end _ _ (save_attempts-Quiet 4 true d) (after_saving-Confirmed rounds)))
