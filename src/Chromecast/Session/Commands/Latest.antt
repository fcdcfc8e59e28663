-- ===== src/Chromecast/Session/Commands/Latest.antt =====
-- The worker runs the latest command, is interrupted for it, and ends when it is told to.
use phone.Prelude.Integers.{ℤ}
use phone.Prelude.{
  ℕ, ◌≡◌, refl, ap, ◌∙◌, Bool, true, false, List, [], ◌∷◌, Option, none, some, inl, inr, ◌⊎◌,
}
use phone.Chromecast.Json.{Text}
use phone.Chromecast.Session.Commands.{
  Command, search, open_device, rescan, join, stop, Worker, waiting, running, ended, Mailbox,
  Request, search_request, rescan_request, open_request, join_request, command_of, argument_of,
  password_of, is_stop, leave, leave_unless, next_number, send, send_all, destroy, take_command,
  after_command, finish_command, advance_from, advance, Step, sends, stops, advances, Reachable,
  start, then_step,
}

abbrev is_left : Option Command → Bool
is_left none = false
is_left (some command) = true

-- A password waits with a command that uses it, or with the end of the session.
abbrev MayHold : Option Command → Text → Type 0
MayHold (some join) password = Unit {0}
MayHold (some stop) password = Unit {0}
MayHold command password = password ≡ []

abbrev pub IsConsistent : Mailbox → Type 0
IsConsistent m = (m.interrupted ≡ is_left m.command) × MayHold m.command m.password

leave-MayHold : (request : Request) → MayHold (some (command_of request)) (password_of request)
leave-MayHold search_request = refl
leave-MayHold rescan_request = refl
leave-MayHold (open_request index) = refl
leave-MayHold (join_request network password) = tt

leave_unless-IsConsistent :
    (b : Bool) (m : Mailbox) (number : ℕ) (request : Request)
    → IsConsistent m
    → IsConsistent (leave_unless b m number request)
unfolding leave_unless leave
leave_unless-IsConsistent true m number request h = h
leave_unless-IsConsistent false m number request h = (refl, leave-MayHold request)

take_command-IsConsistent :
    (m : Mailbox) (o : Option Command) → IsConsistent m → IsConsistent (take_command m o)
unfolding take_command
take_command-IsConsistent m none h = h
take_command-IsConsistent m (some command) h = (refl, refl)

advance_from-IsConsistent :
    (m : Mailbox) (w : Worker) → IsConsistent m → IsConsistent (advance_from m w)
unfolding advance_from finish_command
advance_from-IsConsistent m waiting h = take_command-IsConsistent m m.command h
advance_from-IsConsistent m (running command argument password) h = h
advance_from-IsConsistent m ended h = h

Step-IsConsistent : {m n : Mailbox} → Step m n → IsConsistent m → IsConsistent n
Step-IsConsistent (sends m request) h =
    unfold send in leave_unless-IsConsistent (is_stop m.command) m (next_number m) request h
Step-IsConsistent (stops m) h = unfold destroy in (refl, tt)
Step-IsConsistent (advances m) h = unfold advance in advance_from-IsConsistent m m.worker h

-- In every state that calls and steps of the worker reach, the running command is interrupted exactly
-- while another waits, and a password waits only with a join or with the end of the session.
pub Reachable-IsConsistent : (m : Mailbox) → Reachable m → IsConsistent m
Reachable-IsConsistent _ start = (refl, refl)
Reachable-IsConsistent _ (then_step {m} before step) =
    Step-IsConsistent step (Reachable-IsConsistent m before)

leave_unless-worker :
    (b : Bool) (m : Mailbox) (number : ℕ) (request : Request)
    → (leave_unless b m number request).worker ≡ m.worker
unfolding leave_unless leave
leave_unless-worker true m number request = refl
leave_unless-worker false m number request = refl

send-worker : (m : Mailbox) (request : Request) → (send m request).worker ≡ m.worker
unfolding send
send-worker m request = leave_unless-worker (is_stop m.command) m (next_number m) request

send_all-worker : (requests : List Request) (m : Mailbox) → (send_all requests m).worker ≡ m.worker
unfolding send_all
send_all-worker [] m = refl
send_all-worker (request ∷ requests) m =
    send_all-worker requests (send m request) ∙ send-worker m request

send_all-stop :
    (requests : List Request) (m : Mailbox)
    → m.command ≡ some stop
    → (send_all requests m).command ≡ some stop
unfolding send_all
send_all-stop [] m h = h
send_all-stop (request ∷ requests) m h =
    send_all-stop requests (send m request) (unfold send leave_unless in rw (ap is_stop h) h)

is_stop-leave : (request : Request) → is_stop (some (command_of request)) ≡ false
is_stop-leave search_request = refl
is_stop-leave rescan_request = refl
is_stop-leave (open_request index) = refl
is_stop-leave (join_request network password) = refl

send_all-is_stop :
    (requests : List Request) (m : Mailbox)
    → is_stop m.command ≡ false
    → is_stop (send_all requests m).command ≡ false
unfolding send_all
send_all-is_stop [] m h = h
send_all-is_stop (request ∷ requests) m h =
    send_all-is_stop requests (send m request)
      (unfold send leave_unless leave in rw h (is_stop-leave request))

-- However many commands are sent while the worker waits and the session is not stopping, the worker
-- takes the last one, under the number that its call returned, and is not interrupted.
pub advance-send :
    (m : Mailbox) (earlier : List Request) (request : Request)
    → m.worker ≡ waiting
    → is_stop m.command ≡ false
    → let before = send_all earlier m in
      let after = advance (send before request) in
      (after.worker ≡ running (command_of request) (argument_of request) (password_of request))
      × (after.current ≡ next_number before)
      × (after.interrupted ≡ false)
      × (after.command ≡ none)
advance-send m earlier request idle going =
    let before = send_all earlier m in
    let open_session : is_stop before.command ≡ false = send_all-is_stop earlier m going in
    let sent : send before request ≡ leave before (next_number before) request =
      unfold send leave_unless in rw open_session refl in
    let idle' : before.worker ≡ waiting = send_all-worker earlier m ∙ idle in
    rw sent (
      unfold advance leave in
      rw idle' (unfold advance_from take_command in (refl, refl, refl, refl)))

-- How far the session is from its end, in steps of the worker.
abbrev pub Over : Mailbox → Type 0
Over m = m.worker ≡ ended

abbrev Stopping : Mailbox → Type 0
Stopping m =
    Over m ⊎ ((argument : ℤ) × (password : Text) × (m.worker ≡ running stop argument password))

abbrev ToStop : Mailbox → Type 0
ToStop m = Stopping m ⊎ ((m.worker ≡ waiting) × (m.command ≡ some stop))

advance-Over : (m : Mailbox) → Over m → Over (advance m)
unfolding advance
advance-Over m h = rw h (unfold advance_from in refl)

advance-Stopping : (m : Mailbox) → Stopping m → Over (advance m)
advance-Stopping m (inl h) = advance-Over m h
advance-Stopping m (inr (argument, password, h)) =
    unfold advance in rw h (unfold advance_from finish_command after_command in refl)

advance-ToStop : (m : Mailbox) → ToStop m → Stopping (advance m)
advance-ToStop m (inl h) = inl (advance-Stopping m h)
advance-ToStop m (inr (idle, left)) =
    unfold advance in
    rw idle
      (unfold advance_from in rw left (unfold take_command in inr (m.argument, m.password, refl)))

send_all-Stopping :
    (requests : List Request) (m : Mailbox) → Stopping m → Stopping (send_all requests m)
send_all-Stopping requests m (inl h) = inl (send_all-worker requests m ∙ h)
send_all-Stopping requests m (inr (argument, password, h)) =
    inr (argument, password, send_all-worker requests m ∙ h)

advance-left :
    (m : Mailbox) (w : Worker) → m.worker ≡ w → m.command ≡ some stop → ToStop (advance_from m w)
unfolding advance_from
advance-left m waiting h left =
    rw left (unfold take_command in inl (inr (m.argument, m.password, refl)))
advance-left m (running command argument password) h left = unfold finish_command in after command
  where
    after : (c : Command) → ToStop (record m { worker = after_command c })
    after search = unfold after_command in inr (refl, left)
    after open_device = unfold after_command in inr (refl, left)
    after rescan = unfold after_command in inr (refl, left)
    after join = unfold after_command in inr (refl, left)
    after stop = unfold after_command in inl (inl refl)
advance-left m ended h left = inl (inl h)

send_all-ToStop : (requests : List Request) (m : Mailbox) → ToStop m → ToStop (send_all requests m)
send_all-ToStop requests m (inl h) = inl (send_all-Stopping requests m h)
send_all-ToStop requests m (inr (idle, left)) =
    inr (send_all-worker requests m ∙ idle, send_all-stop requests m left)

-- From every state, and whatever is sent meanwhile, the worker has ended three of its steps after
-- destroy: the end of the command that it runs, the start of the last one, and its end.
pub destroy-Over :
    (m : Mailbox) (first second third : List Request)
    → let one = advance (send_all first (destroy m)) in
      let two = advance (send_all second one) in Over (advance (send_all third two))
destroy-Over m first second third =
    let told = send_all first (destroy m) in
    let one = advance told in
    let two = advance (send_all second one) in
    let left : told.command ≡ some stop =
      send_all-stop first (destroy m) (unfold destroy in refl) in
    let near : ToStop one = unfold advance in advance-left told told.worker refl left in
    let nearer : Stopping two =
      advance-ToStop (send_all second one) (send_all-ToStop second one near) in
    advance-Stopping (send_all third two) (send_all-Stopping third two nearer)
