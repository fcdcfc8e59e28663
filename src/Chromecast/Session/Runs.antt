-- ===== src/Chromecast/Session/Runs.antt =====
-- What a run of the session computes through: tests unfold this name.
use phone.Chromecast.Runs.{protocol_run}
use phone.Chromecast.Protocol.Scanning.{
  first_item, ap_frequency, read_network, scan_row, same_network, stronger, merge, merge_row,
  scan_rows, insert, sort, networks_in, parse_scan,
}
use phone.Chromecast.Session.Open.{has_rows}
use phone.Chromecast.Session.Known.{identified, remember, remember_in, keep_network, in_subnet}
use phone.Chromecast.Session.World.{
  return, ◌>>=◌, ask, act, get, put_session, change, is_done, name_of,
}
use phone.Chromecast.Session.Devices.{
  is_connected, on_target, publish, release_if, release_requests, is_refused, request_info,
  read_answer, read_attempts, read_info, post, network_saved, remember_device,
}
use phone.Chromecast.Session.Finish.{
  refreshed, save_on, check_target, locate, save_attempts, verify_rounds, succeed, conclude,
  conclude_unless, after_saving, finish,
}
use phone.Chromecast.Session.Join.{
  network_at, chosen, still_there, is_bad_request, joined_or, probed, join_rounds, wait_for_join,
  after_sending, post_connect, send_network, contact, start_join, checked_join, join_network,
  run_join,
}

unfoldable pub session_run : Unit {0}
unfolding protocol_run identified remember remember_in keep_network in_subnet return ◌>>=◌ ask act
    get put_session change is_done name_of is_connected on_target publish release_if
    release_requests is_refused request_info read_answer read_attempts read_info post network_saved
    remember_device refreshed save_on check_target locate save_attempts verify_rounds succeed
    conclude conclude_unless after_saving finish network_at chosen still_there is_bad_request
    joined_or probed join_rounds wait_for_join after_sending post_connect send_network contact
    start_join checked_join join_network run_join has_rows first_item ap_frequency read_network
    scan_row same_network stronger merge merge_row scan_rows insert sort networks_in parse_scan
session_run = tt
