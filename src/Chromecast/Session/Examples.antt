-- ===== src/Chromecast/Session/Examples.antt =====
-- Devices, a phone and a session for the tests.
use phone.Prelude.Integers.{pos, negsuc}
use phone.Prelude.Texts.{bytes_of}
use phone.Prelude.{true, false, [], ◌∷◌}
use phone.Chromecast.Json.{Text}
use phone.Chromecast.Protocol.{DeviceInfo, WifiNetwork}
use phone.Chromecast.Session.World.{
  answered, requested, Device, searching, failing, Snapshot, Session, SessionConfig, Phone,
}

-- A device of which a name with a quotation mark and a UDN are known.
abbrev pub living_room : DeviceInfo
living_room = record {
  name = bytes_of "Living \"room\"";
  model = [];
  build = [];
  mac = [];
  udn = bytes_of "u1";
  hotspot_bssid = [];
  public_key = bytes_of "AA";
  ssid = bytes_of "old";
  ip = bytes_of "10.0.0.2";
  state = pos 60;
  signal = pos 0;
  keeps_hotspot = false;
}

-- The answer of the device once it is on the network.
abbrev pub joined_answer : Text
joined_answer =
    bytes_of
      "{\"name\":\"TV\",\"ssdp_udn\":\"u1\",\"public_key\":\"AA\",\"ssid\":\"net\",\"setup_state\":62}"

abbrev pub home : Phone (Unit {0})
home = record {
  request = λ e method path body w. (answered (record { status = 200; body = joined_answer }), w);
  list_networks = λ w. ([], w);
  request_network = λ request w. (requested (pos 1), w);
  release_network = λ id w. w;
  query_mdns = λ n w. ([], w);
  sweep_subnet = λ n w. ([], w);
  pause = λ w. (true, w);
  interrupted = λ w. (false, w);
  waited_long = λ w. (false, w);
  save_file = λ known w. w;
  parse_address = λ text. 0;
}

abbrev pub config : SessionConfig
config = record { http_port = 8008; https_port = 8443; hotspot_address = 0xc0a8fff9 }

abbrev pub net : WifiNetwork
net = record {
  ssid = bytes_of "net";
  bssid = [];
  signal = negsuc 39;
  auth = pos 7;
  cipher = pos 4;
  frequency = pos 2412;
  wpa_id = negsuc 0;
}

abbrev pub opened : Device
opened = record {
  info = living_room;
  endpoint = record { network = 1; address = 0x0a000002; port = 8443; tls = true };
  reachable = true;
  hotspot = false;
}

abbrev pub listed : Snapshot
listed = record {
  stage = searching;
  devices = [];
  device = opened;
  networks = net ∷ [];
  target = [];
  message = [];
  prompt = false;
  joined = false;
  retry = false;
  failed = failing;
}

abbrev pub session : Session
session = record {
  work = listed;
  shared = listed;
  known = [];
  hotspot_request = negsuc 0;
  target_request = negsuc 0;
}

-- The first device at another address.
abbrev pub moved : DeviceInfo
moved = record living_room { ssid = bytes_of "net"; ip = bytes_of "10.0.0.7" }

-- Another device, of which a MAC address is known.
abbrev pub bedroom : DeviceInfo
bedroom = record living_room {
  name = bytes_of "Bedroom";
  mac = bytes_of "aa";
  udn = [];
  public_key = bytes_of "BB";
}
