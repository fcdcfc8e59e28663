-- ===== src/Chromecast/Session/Moved/Confirmed.antt =====
-- The search for a device that moved ends a join as done only where the device was found on the network.
use phone.Prelude.Integers.{pos, less_int}
use phone.Prelude.{
  ℕ, zero, suc, Bool, true, false, not, ◌&&◌, List, [], ◌∷◌, if◌then◌else◌, if-both,
}
use phone.Chromecast.Json.{Text, Numbers, is_empty}
use phone.Chromecast.Protocol.{WifiNetwork, failed_state, is_negative}
use phone.Chromecast.Protocol.Passwords.{same_device}
use phone.Chromecast.Session.World.{
  PhoneNetwork, Device, Session, SessionConfig, Phone, Run, return, ◌>>=◌,
}
use phone.Chromecast.Session.Devices.{on_target, fail, on_hotspot}
use phone.Chromecast.Session.Devices.Quiet.{
  Ends, NotDone, Quiet, Ends->>=, Ends-return, Ends-ask, Ends-get, ask-Quiet, fail-Quiet,
  find_devices-Quiet, request_target-Quiet,
}
use phone.Chromecast.Session.Finish.Confirmed.{Confirmed, NotDone-Confirmed, finish-Confirmed}
use phone.Chromecast.Session.Moved.{
  not_joined, went_back, judge, or_then, judge_all, look_on, ask_later, ask_phone, find_rounds,
}

module _ {W : Type 0} (f : Numbers) (phone : Phone W) (config : SessionConfig)
    (target : WifiNetwork) (password : Text) (saving_rounds : ℕ) where
  -- A part that may end the join, and says whether it did: the stage is not done unless it did.
  abbrev pub Judged : Bool → Session → Type 0
  Judged true s = Confirmed f phone config target password s
  Judged false s = NotDone s

  abbrev pub Judges : Run W Bool → Type 0
  Judges r = (s : Session) (w : W) → NotDone s → Judged (r s w).0 (r s w).1

  judge_end :
      {A : Type 0} (r : Run W A)
      → Ends NotDone (Confirmed f phone config target password) r
      → Judges (r >>= λ _. return true)
  unfolding ◌>>=◌ return
  judge_end r e s w p = e s w p

  Judges-no : Judges (return false)
  unfolding return
  Judges-no s w p = p

  Judges-yes : Judges (return true)
  unfolding return
  Judges-yes s w p = NotDone-Confirmed f phone config target password s p

  Quiet-Judges :
      {A : Type 0} (r : Run W A) (next : A → Run W Bool)
      → Quiet r
      → ((a : A) → Judges (next a))
      → Judges (r >>= next)
  unfolding ◌>>=◌
  Quiet-Judges r next q k s w p = k (r s w).0 (r s w).1 (r s w).2 (q s w p)

  Ends-Quiet :
      {A : Type 0} (r : Run W A)
      → Quiet r
      → Ends NotDone (Confirmed f phone config target password) r
  Ends-Quiet r q s w p = NotDone-Confirmed f phone config target password (r s w).1 (q s w p)

  abbrev pub Ending : {A : Type 0} → Run W A → Type 0
  Ending r = Ends NotDone (Confirmed f phone config target password) r

  pub then-Ending :
      {A B : Type 0} (r : Run W A) (next : A → Run W B)
      → Quiet r
      → ((a : A) → Ending (next a))
      → Ending (r >>= next)
  then-Ending r next = Ends->>= NotDone NotDone (Confirmed f phone config target password) r next

  pub return-Ending : Ending (return tt)
  return-Ending = Ends-Quiet (return tt) (Ends-return NotDone tt)

  pub fail-Ending : (message : Text) (retry : Bool) → Ending (fail f phone config message retry)
  fail-Ending message retry =
      Ends-Quiet (fail f phone config message retry) (fail-Quiet f phone config message retry)

  pub judge-Judges :
      (d found : Device) → Judges (judge f phone config target password saving_rounds d found)
  unfolding judge not_joined went_back
  judge-Judges d found = if-both Judges (not (same_device found.info d.info)) Judges-no (
      if-both Judges (on_target found.info target)
        (judge_end _ (finish-Confirmed f phone config target password saving_rounds _))
        (if-both Judges (failed_state found.info.state) (judge_end _ (fail-Ending _ true)) (
          if-both Judges
            (not (is_empty found.info.ssid) && not (less_int found.info.state (pos 60)))
            (judge_end _ (fail-Ending _ true)) Judges-no)))

  -- After a part that judges, one that goes on only where the join was not ended.
  Judged-next :
      (b : Bool) (later : Run W Bool) (s : Session) (w : W)
      → Judged b s
      → Judges later
      → Judged ((if b then return true else later) s w).0 ((if b then return true else later) s w).1
  unfolding return
  Judged-next true later s w j k = j
  Judged-next false later s w j k = k s w j

  or_then-Judges :
      (first later : Run W Bool)
      → Judges first
      → Judges later
      → Judges (or_then f phone config target password saving_rounds first later)
  unfolding or_then ◌>>=◌
  or_then-Judges first later h k s w p =
      Judged-next (first s w).0 later (first s w).1 (first s w).2 (h s w p) k

  Judged-end :
      (b : Bool) (later : Run W (Unit {0})) (s : Session) (w : W)
      → Judged b s
      → Ends NotDone (Confirmed f phone config target password) later
      → Confirmed f phone config target password ((if b then return tt else later) s w).1
  unfolding return
  Judged-end true later s w j k = j
  Judged-end false later s w j k = k s w j

  then_judged :
      (r : Run W Bool) (later : Run W (Unit {0}))
      → Judges r
      → Ends NotDone (Confirmed f phone config target password) later
      → Ends NotDone
          (Confirmed f phone config target password)
          (r >>= λ b. if b then return tt else later)
  unfolding ◌>>=◌
  then_judged r later h k s w p = Judged-end (r s w).0 later (r s w).1 (r s w).2 (h s w p) k

  judge_all-Judges :
      (d : Device) (found : List Device)
      → Judges (judge_all f phone config target password saving_rounds d found)
  unfolding judge_all
  judge_all-Judges d [] = Judges-no
  judge_all-Judges d (found ∷ others) =
      or_then-Judges _ _ (judge-Judges d found) (judge_all-Judges d others)

  look_on-Judges :
      (d : Device) (networks : List PhoneNetwork)
      → Judges (look_on f phone config target password saving_rounds d networks)
  unfolding look_on
  look_on-Judges d [] = Judges-no
  look_on-Judges d (n ∷ networks) =
      let rest = look_on-Judges d networks in
      Quiet-Judges _ _ (Ends-ask NotDone phone.interrupted) (λ stop.
        if-both Judges stop Judges-yes (
          if-both Judges (on_hotspot f phone config n) rest (
            or_then-Judges _ _
              (Quiet-Judges _ _ (find_devices-Quiet f phone config n _) (judge_all-Judges d))
              rest)))

  ask_phone-Quiet : Quiet (ask_phone f phone config target password saving_rounds)
  unfolding ask_phone ask_later
  ask_phone-Quiet = Ends-get NotDone NotDone _ (λ s p.
      if-both Quiet (is_negative s.target_request)
        (ask-Quiet _ _ (λ long.
          if-both Quiet long (request_target-Quiet f phone config target password)
            (Ends-return NotDone true)))
        (Ends-return NotDone true))

  pub find_rounds-Ending :
      (n : ℕ) (d : Device) → Ending (find_rounds f phone config target password saving_rounds n d)
  unfolding find_rounds
  find_rounds-Ending zero d = fail-Ending _ false
  find_rounds-Ending (suc n) d = then-Ending _ _ (Ends-ask NotDone phone.list_networks) (λ networks.
      then_judged _ _ (look_on-Judges d networks) (
        then-Ending _ _ ask_phone-Quiet (λ asked.
          if-both Ending asked
            (then-Ending _ _ (Ends-ask NotDone phone.pause)
              (λ idle. if-both Ending idle (find_rounds-Ending n d) return-Ending))
            return-Ending)))
