-- ===== src/Chromecast/Session/Devices/Quiet.antt =====
-- The calls to devices that the commands share leave the stage as it is, or set it to failed.
use phone.Prelude.Integers.{ℤ, pos, same_int}
use phone.Prelude.{
  ℕ, zero, suc, ◌≡◌, refl, Bool, true, false, not, ◌||◌, List, [], ◌∷◌, Option, none, some, if-both,
}
use phone.Chromecast.Json.{Text, Numbers}
use phone.Chromecast.Protocol.{DeviceInfo, WifiNetwork, is_negative}
use phone.Chromecast.Session.World.{
  Endpoint, HttpResult, answered, no_answer, PhoneNetwork, Requested, requested, refused, Device,
  failing, Snapshot, Session, SessionConfig, Phone, Run, return, ◌>>=◌, ask, act, get, put_session,
  change, is_done,
}
use phone.Chromecast.Session.Devices.{
  publish, release_if, release_requests, fail, on_hotspot, is_refused, request_info, read_answer,
  read_attempts, read_info, post, add_found, ask_candidates, find_devices, first_same, found_or,
  search_networks, find_on_lan, after_request, request_new_target, request_target, network_saved,
  remember_device,
}

-- From a session with the first property, a part of the program ends in one with the second.
abbrev pub Ends : {W A : Type 0} → (Session → Type 0) → (Session → Type 0) → Run W A → Type 0
Ends {W = W} P Q r = (s : Session) (w : W) → P s → Q (r s w).1

abbrev pub NotDone : Session → Type 0
NotDone s = is_done s.work.stage ≡ false

abbrev pub Quiet : {W A : Type 0} → Run W A → Type 0
Quiet r = Ends NotDone NotDone r

module _ {W A B : Type 0} (P R Q : Session → Type 0) where
  pub Ends->>= :
      (r : Run W A) (next : A → Run W B)
      → Ends P R r
      → ((a : A) → Ends R Q (next a))
      → Ends P Q (r >>= next)
  unfolding ◌>>=◌
  Ends->>= r next h k s w p = k (r s w).0 (r s w).1 (r s w).2 (h s w p)

module _ {W : Type 0} (P : Session → Type 0) where
  pub Ends-return : {A : Type 0} (a : A) → Ends {W = W} P P (return a)
  unfolding return
  Ends-return a s w p = p

  pub Ends-ask : {A : Type 0} (f : W → A × W) → Ends P P (ask f)
  unfolding ask
  Ends-ask f s w p = p

  pub Ends-act : (f : W → W) → Ends P P (act f)
  unfolding act
  Ends-act f s w p = p

  pub Ends-get :
      {A : Type 0} (Q : Session → Type 0) (next : Session → Run W A)
      → ((s : Session) → P s → Ends P Q (next s))
      → Ends P Q (get >>= next)
  unfolding ◌>>=◌ get
  Ends-get Q next k s w p = k s p s w p

  pub Ends-put : (Q : Session → Type 0) (s' : Session) → Q s' → Ends {W = W} P Q (put_session s')
  unfolding put_session
  Ends-put Q s' q s w p = q

  pub Ends-change :
      (Q : Session → Type 0) (f : Snapshot → Snapshot)
      → ((s : Session) → P s → Q (record s { work = f s.work }))
      → Ends {W = W} P Q (change f)
  unfolding change
  Ends-change Q f k s w p = k s p

module _ {W A B : Type 0} where
  pub then-Quiet :
      (r : Run W A) (next : A → Run W B) → Quiet r → ((a : A) → Quiet (next a)) → Quiet (r >>= next)
  then-Quiet r next = Ends->>= NotDone NotDone NotDone r next

  pub ask-Quiet :
      (f : W → A × W) (next : A → Run W B) → ((a : A) → Quiet (next a)) → Quiet (ask f >>= next)
  ask-Quiet f next = then-Quiet (ask f) next (Ends-ask NotDone f)

module _ {W : Type 0} (f : Numbers) (phone : Phone W) (config : SessionConfig) where
  -- publish copies the prepared snapshot, and changes nothing of it.
  pub publish-Ends :
      (P : Snapshot → Type 0) → Ends (λ s. P s.work) (λ s. P s.work) (publish f phone config)
  unfolding publish
  publish-Ends P =
      Ends-get (λ s. P s.work) (λ s. P s.work) _
        (λ s p. Ends-put (λ s. P s.work) (λ s. P s.work) _ p)

  pub publish-Quiet : Quiet (publish f phone config)
  publish-Quiet = publish-Ends (λ work. is_done work.stage ≡ false)

  pub release_if-Quiet : (id : ℤ) → Quiet (release_if f phone config id)
  unfolding release_if
  release_if-Quiet id =
      if-both Quiet (is_negative id) (Ends-return NotDone tt)
        (Ends-act NotDone (phone.release_network id))

  pub release_requests-Quiet : Quiet (release_requests f phone config)
  unfolding release_requests
  release_requests-Quiet = Ends-get NotDone NotDone _ (λ s p.
      then-Quiet _ _ (release_if-Quiet s.hotspot_request) (λ _.
        then-Quiet _ _ (release_if-Quiet s.target_request) (λ _.
          then-Quiet _ _ (Ends-put NotDone NotDone _ p)
            (λ _. Ends-change NotDone NotDone _ (λ s' p'. p')))))

  pub fail-Quiet : (message : Text) (retry : Bool) → Quiet (fail f phone config message retry)
  unfolding fail
  fail-Quiet message retry = then-Quiet _ _ release_requests-Quiet (λ _.
      then-Quiet _ _
        (Ends-change NotDone NotDone
          (λ work. record work {
            failed = work.stage;
            stage = failing;
            message = message;
            retry = retry;
          })
          (λ s p. unfold is_done in refl))
        (λ _. publish-Quiet))

  request_info-Quiet :
      (e : Endpoint) (response : HttpResult) → Quiet (request_info f phone config e response)
  unfolding request_info
  request_info-Quiet e response =
      if-both Quiet (is_refused f phone config response) (Ends-ask NotDone _)
        (Ends-return NotDone response)

  read_answer-Quiet :
      (e : Endpoint) (again : Endpoint → Run W (Option DeviceInfo × Endpoint))
      (response : HttpResult)
      → ((e' : Endpoint) → Quiet (again e'))
      → Quiet (read_answer f phone config e again response)
  unfolding read_answer
  read_answer-Quiet e again (answered response) h = Ends-return NotDone _
  read_answer-Quiet e again (no_answer problem) h =
      if-both Quiet (not problem.connected || not e.tls) (Ends-return NotDone _) (h _)

  read_attempts-Quiet : (n : ℕ) (e : Endpoint) → Quiet (read_attempts f phone config n e)
  unfolding read_attempts
  read_attempts-Quiet zero e = Ends-return NotDone _
  read_attempts-Quiet (suc n) e = ask-Quiet _ _ (λ first.
      then-Quiet _ _ (request_info-Quiet e first) (λ response.
        read_answer-Quiet e (read_attempts f phone config n) response (read_attempts-Quiet n)))

  pub read_info-Quiet : (e : Endpoint) → Quiet (read_info f phone config e)
  unfolding read_info
  read_info-Quiet e = read_attempts-Quiet 2 e

  pub post-Quiet : (e : Endpoint) (path body : Text) → Quiet (post f phone config e path body)
  unfolding post
  post-Quiet e path body = Ends-ask NotDone _

  ask_candidates-Quiet :
      (n : PhoneNetwork) (hotspot : Bool) (addresses : List ℕ) (found : List Device)
      → Quiet (ask_candidates f phone config n hotspot addresses found)
  unfolding ask_candidates
  ask_candidates-Quiet n hotspot [] found = Ends-return NotDone found
  ask_candidates-Quiet n hotspot (address ∷ addresses) found = ask-Quiet _ _ (λ stop.
      if-both Quiet stop (Ends-return NotDone found) (
        then-Quiet _ _ (read_info-Quiet _) (λ answer.
          ask_candidates-Quiet n hotspot addresses
            (add_found f phone config hotspot found answer))))

  pub find_devices-Quiet :
      (n : PhoneNetwork) (hints : List ℕ) → Quiet (find_devices f phone config n hints)
  unfolding find_devices
  find_devices-Quiet n hints =
      if-both Quiet (on_hotspot f phone config n)
        (ask_candidates-Quiet n true (config.hotspot_address ∷ []) [])
        (ask-Quiet _ _ (λ answers. ask-Quiet _ _ (λ stop.
          if-both Quiet stop (Ends-return NotDone [])
            (ask-Quiet _ _ (λ open_hosts. ask_candidates-Quiet n false _ [])))))

  found_or-Quiet :
      (o : Option Device) (later : Run W (Option Device))
      → Quiet later
      → Quiet (found_or f phone config o later)
  unfolding found_or
  found_or-Quiet (some d) later h = Ends-return NotDone (some d)
  found_or-Quiet none later h = h

  search_networks-Quiet :
      (info : DeviceInfo) (networks : List PhoneNetwork)
      → Quiet (search_networks f phone config info networks)
  unfolding search_networks
  search_networks-Quiet info [] = Ends-return NotDone none
  search_networks-Quiet info (n ∷ networks) =
      let rest = search_networks-Quiet info networks in
      ask-Quiet _ _ (λ stop. if-both Quiet stop (Ends-return NotDone none) (
        if-both Quiet (on_hotspot f phone config n) rest (
          then-Quiet _ _ (find_devices-Quiet n _)
            (λ found. found_or-Quiet (first_same f phone config info found) _ rest))))

  pub find_on_lan-Quiet : (info : DeviceInfo) → Quiet (find_on_lan f phone config info)
  unfolding find_on_lan
  find_on_lan-Quiet info = ask-Quiet _ _ (search_networks-Quiet info)

  after_request-Quiet :
      (target : WifiNetwork) (answer : Requested)
      → Quiet (after_request f phone config target answer)
  unfolding after_request
  after_request-Quiet target (refused problem) =
      then-Quiet _ _ (fail-Quiet _ false) (λ _. Ends-return NotDone false)
  after_request-Quiet target (requested id) = Ends-get NotDone NotDone _ (λ s p.
      then-Quiet _ _ (Ends-put NotDone NotDone _ p) (λ _.
        then-Quiet _ _ (Ends-change NotDone NotDone _ (λ s' p'. p'))
          (λ _. then-Quiet _ _ publish-Quiet (λ _. Ends-return NotDone true))))

  pub request_target-Quiet :
      (target : WifiNetwork) (password : Text)
      → Quiet (request_target f phone config target password)
  unfolding request_target request_new_target
  request_target-Quiet target password = Ends-get NotDone NotDone _ (λ s p.
      if-both Quiet (is_negative s.target_request)
        (Ends-get NotDone NotDone _ (λ s' p'.
          then-Quiet _ _ (release_if-Quiet s'.hotspot_request) (λ _.
            then-Quiet _ _ (Ends-put NotDone NotDone _ p')
              (λ _. ask-Quiet _ _ (after_request-Quiet target)))))
        (Ends-return NotDone true))

  pub network_saved-Quiet :
      (d : Device) (target : WifiNetwork) → Quiet (network_saved f phone config d target)
  unfolding network_saved
  network_saved-Quiet d target =
      if-both Quiet (same_int d.info.state (pos 62)) (Ends-return NotDone true) (
        if-both Quiet (same_int d.info.state (pos 61)) (Ends-return NotDone false)
          (ask-Quiet _ _ (λ response. Ends-return NotDone _)))

  pub remember_device-Quiet : (info : DeviceInfo) → Quiet (remember_device f phone config info)
  unfolding remember_device
  remember_device-Quiet info =
      Ends-get NotDone NotDone _
        (λ s p. then-Quiet _ _ (Ends-put NotDone NotDone _ p) (λ _. Ends-act NotDone _))
