-- ===== src/Chromecast/Session/Join/Refused.antt =====
-- A network or a password that cannot work is refused before anything is sent.
use phone.Prelude.Integers.{ℤ}
use phone.Prelude.{
  ℕ, ◌≡◌, refl, sym, ap, ◌∙◌, [], Bool, true, false, not, ◌&&◌, ◌||◌, some, if◌then◌else◌, if-each,
  Bool-cases, inl, inr,
}
use phone.Chromecast.Json.{Text, Numbers}
use phone.Chromecast.Protocol.{WifiNetwork, is_negative}
use phone.Chromecast.Protocol.Passwords.{Crypto, supported, needs_password, valid_passphrase}
use phone.Chromecast.Session.World.{
  Device, failing, sending, Snapshot, Session, SessionConfig, Phone, Run, return, ◌>>=◌, act, get,
  put_session, change,
}
use phone.Chromecast.Session.Devices.{publish, release_if, release_requests, fail}
use phone.Chromecast.Session.Join.{chosen, checked_join, join_network, run_join}

-- The network and the password that run_join accepts.
abbrev pub can_join : WifiNetwork → Text → Bool
can_join target password =
    supported target && (not (needs_password target) || valid_passphrase password)

open_network : (a b c : Bool) → (a && (not b || c)) ≡ false → not a ≡ false → not b ≡ true → ⊥
open_network true true c h e g = absurd cc
open_network true false c h e g = absurd cc
open_network false b c h e g = absurd cc

good_password :
    (a b c : Bool) → (a && (not b || c)) ≡ false → not a ≡ false → not b ≡ false → not c ≡ false → ⊥
good_password true true true h e g v = absurd cc
good_password true true false h e g v = absurd cc
good_password true false c h e g v = absurd cc
good_password false b c h e g v = absurd cc

-- The world after a request was released, if there is one.
abbrev released : {W : Type 0} → Phone W → ℤ → W → W
released phone id w = if is_negative id then w else phone.release_network id w

module _ {W : Type 0} (f : Numbers) (phone : Phone W) (config : SessionConfig) where
  release_if-world :
      (id : ℤ) (s : Session) (w : W) → (release_if f phone config id s w).2 ≡ released phone id w
  unfolding release_if return act
  release_if-world id s w = elim (Bool-cases (is_negative id)) [
    | inl e ↦ rw e refl
    | inr e ↦ rw e refl
  ]

  -- What release_requests does to the world depends on the requests alone.
  release_requests-world :
      (s : Session) (w : W)
      → (release_requests f phone config s w).2
        ≡ released phone s.target_request (released phone s.hotspot_request w)
  unfolding release_requests get ◌>>=◌ put_session change
  release_requests-world s w =
      release_if-world s.target_request _ _
      ∙ ap (released phone s.target_request) (release_if-world s.hotspot_request s w)

module _ {W Key : Type 0} (f : Numbers) (phone : Phone W) (config : SessionConfig) (c : Crypto Key)
    (saving_rounds rounds finding_rounds : ℕ) where
  -- What a part of the program leaves: the stage kFailed, and a world where only requests were released.
  abbrev Refuses : Run W (Unit {0}) → Type 0
  Refuses r =
      (s : Session) (w : W)
      → ((r s w).2 ≡ (release_requests f phone config s w).2) × ((r s w).1.work.stage ≡ failing)

  fail-Refuses : (message : Text) (retry : Bool) → Refuses (fail f phone config message retry)
  unfolding fail publish ◌>>=◌ get put_session change
  fail-Refuses message retry s w = (refl, refl)

  checked_join-Refuses :
      (target : WifiNetwork) (password : Text) (d : Device)
      → can_join target password ≡ false
      → Refuses
          (checked_join f phone config c saving_rounds rounds finding_rounds target password d)
  unfolding checked_join
  checked_join-Refuses target password d h =
      if-each Refuses (not (supported target)) (λ _. fail-Refuses _ false)
        (λ e.
          if-each Refuses (not (needs_password target))
            (λ g. absurd (
              open_network (supported target) (needs_password target) (valid_passphrase password) h
                e g))
            (λ g.
              if-each Refuses (not (valid_passphrase password)) (λ _. fail-Refuses _ true)
                (λ v. absurd (
                  good_password (supported target) (needs_password target)
                    (valid_passphrase password) h e g v))))

-- For a network of the list that is not supported, or that needs a password where the given one is not
-- valid, run_join sends nothing: it ends with the stage kFailed, and all that it did to the phone and
-- the network is to release the requests that were held.
pub run_join-refuses :
    {W Key : Type 0} (f : Numbers) (phone : Phone W) (config : SessionConfig) (c : Crypto Key)
    (saving_rounds rounds finding_rounds : ℕ) (index : ℤ) (password : Text) (s : Session) (w : W)
    (target : WifiNetwork)
    → chosen s.work.networks index ≡ some target
    → can_join target password ≡ false
    → let end = run_join f phone config c saving_rounds rounds finding_rounds index password s w in
      (end.2 ≡ (release_requests f phone config s w).2) × (end.1.work.stage ≡ failing)
unfolding run_join join_network get change publish put_session ◌>>=◌
run_join-refuses f phone config c saving_rounds rounds finding_rounds index password s w target e
      h =
    let before = λ (work : Snapshot). record work {
      target = target.ssid;
      message = [];
      retry = false;
      joined = false;
      stage = sending;
    } in
    let s' = record s { work = before s.work; shared = before s.work } in
    let (world, stage) =
      checked_join-Refuses f phone config c saving_rounds rounds finding_rounds target password
        s.work.device h s' w in
    rw e (
      world
          ∙ release_requests-world f phone config s' w
          ∙ sym (release_requests-world f phone config s w),
      stage,
    )
