-- ===== src/Chromecast/Session/Tests.antt =====
-- Runs of chromecast/session.cc on concrete answers.
use phone.Prelude.Integers.{pos}
use phone.Prelude.Texts.{bytes_of}
use phone.Prelude.{
  ℕ, zero, suc, ◌+◌, inl, inr, arith, ◌≡◌, refl, true, false, List, [], ◌∷◌, none, All,
}
use phone.Chromecast.Session.Known.{remember_all}
use phone.Chromecast.Session.Known.Kept.{IsKnown}
use phone.Chromecast.Session.Commands.{
  Mailbox, join, running, initial, search_request, rescan_request, join_request, next_number, send,
  send_all, destroy, advance, sends, advances, start, then_step,
}
use phone.Chromecast.Session.Commands.Latest.{
  IsConsistent, Over, Reachable-IsConsistent, advance-send, destroy-Over,
}
use phone.Chromecast.Session.World.{
  Response, HttpResult, answered, requested, failing, Session, Phone, is_done,
}
use phone.Chromecast.Session.Devices.{on_target, release_requests}
use phone.Chromecast.Session.Join.{run_join}
use phone.Chromecast.Session.Join.Confirmed.{run_join-Confirmed}
use phone.Chromecast.Session.Join.Refused.{run_join-refuses}
use phone.Chromecast.Session.Search.{infos_of, show_devices}
use phone.Chromecast.Session.Search.Listed.{Lists, show_devices-Lists}
use phone.Chromecast.Session.Open.{scanned, scan_attempts}
use phone.Chromecast.Session.Open.Retried.{HasNone, HasNetworks, scan_attempts-finds}
use phone.Chromecast.Protocol.Scanning.{parse_scan}
use phone.Chromecast.Runs.{numbers, crypto, passphrase}
use phone.Chromecast.Session.Runs.{session_run}
use phone.Chromecast.Session.Examples.{home, config, net, opened, session, bedroom}

joins :
    is_done (run_join numbers home config crypto 2 2 2 (pos 0) passphrase session tt).1.work.stage
    ≡ true
unfolding session_run
joins = refl

run_join-Confirmed_example :
    let after = (run_join numbers home config crypto 2 2 2 (pos 0) passphrase session tt).1 in
    (on_target after.work.device.info net ≡ true) × (after.work.device.hotspot ≡ false)
run_join-Confirmed_example =
    run_join-Confirmed numbers home config crypto 2 2 2 (pos 0) passphrase session tt net
      (unfold session_run in refl) joins

-- A join is sent while a search runs.
abbrev interrupted_search : Mailbox
interrupted_search = send (advance (send initial search_request)) (join_request (pos 0) passphrase)

Reachable-IsConsistent_example : IsConsistent interrupted_search
Reachable-IsConsistent_example = Reachable-IsConsistent interrupted_search (
    then_step
      (then_step (then_step start (sends initial search_request))
        (advances (send initial search_request)))
      (sends (advance (send initial search_request)) (join_request (pos 0) passphrase)))

advance-send_example :
    let before = send_all (search_request ∷ []) initial in
    let after = advance (send before (join_request (pos 0) passphrase)) in
    (after.worker ≡ running join (pos 0) passphrase)
    × (after.current ≡ next_number before)
    × (after.interrupted ≡ false)
    × (after.command ≡ none)
advance-send_example =
    advance-send initial (search_request ∷ []) (join_request (pos 0) passphrase) refl refl

destroy-Over_example :
    let one = advance (send_all (search_request ∷ []) (destroy interrupted_search)) in
    let two = advance (send_all [] one) in Over (advance (send_all (rescan_request ∷ []) two))
destroy-Over_example =
    destroy-Over interrupted_search (search_request ∷ []) [] (rescan_request ∷ [])

-- The bedroom's device was known before the search found another.
abbrev remembering : Session
remembering = record session { known = record bedroom { public_key = [] } ∷ [] }

remembering-IsKnown : All IsKnown remembering.known
unfolding session_run
remembering-IsKnown = ((refl, refl), tt)

show_devices-Lists_example :
    let (_, after, world) = show_devices numbers home config (opened ∷ []) remembering tt in
    (after.known
      ≡ remember_all home.parse_address config.hotspot_address remembering.known
          (infos_of (opened ∷ [])))
    × (world ≡ home.save_file after.known tt)
    × Lists (opened ∷ []) after.known after.work.devices
show_devices-Lists_example =
    show_devices-Lists numbers home config (opened ∷ []) remembering tt remembering-IsKnown

-- The device fails twice before it has rows for two networks.
abbrev two_rows : Response
two_rows = record {
  status = 200;
  body = bytes_of "[{\"ssid\":\"a\"},{\"ssid\":\"b\"},{\"ssid\":\"a\"}]";
}

abbrev failing_twice : List HttpResult
failing_twice =
    answered (record two_rows { status = 500 }) ∷ answered (record two_rows { body = [] }) ∷ []

abbrev scanning_home : Phone ℕ
scanning_home = record {
  request = λ e method path body w. (at_turn w, w + 1);
  list_networks = λ w. ([], w);
  request_network = λ request w. (requested (pos 1), w);
  release_network = λ id w. w;
  query_mdns = λ n w. ([], w);
  sweep_subnet = λ n w. ([], w);
  pause = λ w. (true, w);
  interrupted = λ w. (false, w);
  waited_long = λ w. (false, w);
  save_file = λ known w. w;
  parse_address = λ text. 0;
}
  where
    at_turn : ℕ → HttpResult
    at_turn zero = answered (record two_rows { status = 500 })
    at_turn (suc zero) = answered (record two_rows { body = [] })
    at_turn (suc (suc w)) = answered two_rows

two_rows-HasNetworks : HasNetworks numbers two_rows (parse_scan numbers two_rows.body)
unfolding session_run
two_rows-HasNetworks = (refl, refl, refl, (λ e. cc))

failing_twice-HasNone : All (HasNone numbers) failing_twice
unfolding session_run
failing_twice-HasNone = (inl (omega arith), (inr (inl refl), tt))

scan_attempts-finds_example :
    (scan_attempts numbers scanning_home config 6 opened (scanned []) session 0).0
    ≡ scanned (parse_scan numbers two_rows.body)
scan_attempts-finds_example =
    scan_attempts-finds numbers scanning_home config opened 6 (scanned []) failing_twice two_rows
      (parse_scan numbers two_rows.body) session 0 (omega arith)
      (refl, refl, (refl, refl, (refl, refl, tt))) failing_twice-HasNone two_rows-HasNetworks

run_join-refuses_example :
    let end = run_join numbers home config crypto 2 2 2 (pos 0) (bytes_of "short") session tt in
    (end.2 ≡ (release_requests numbers home config session tt).2) × (end.1.work.stage ≡ failing)
run_join-refuses_example =
    run_join-refuses numbers home config crypto 2 2 2 (pos 0) (bytes_of "short") session tt net
      (unfold session_run in refl) (unfold session_run in refl)
