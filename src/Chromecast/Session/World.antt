-- ===== src/Chromecast/Session/World.antt =====
-- chromecast/session.cc, session.h, http.h and platform.h: the worker's state, and the calls by which it
-- acts on the phone and the network, which take and return their state.
use phone.Prelude.Integers.{ℤ}
use phone.Prelude.Texts.{bytes_of}
use phone.Prelude.{ℕ, Bool, true, false, List, if◌then◌else◌}
use phone.Chromecast.Json.{Text, is_empty}
use phone.Chromecast.Protocol.{DeviceInfo, WifiNetwork}

pub record Endpoint : Type 0 where
  pub network : ℕ
  pub address : ℕ
  pub port : ℕ
  pub tls : Bool

pub record Response : Type 0 where
  pub status : ℕ
  pub body : Text

pub record HttpError : Type 0 where
  pub message : Text
  pub sent : Bool
  pub connected : Bool

pub data HttpResult : Type 0 where
  answered : Response → HttpResult
  no_answer : HttpError → HttpResult

pub record PhoneNetwork : Type 0 where
  pub handle : ℕ
  pub address : ℕ
  pub prefix : ℕ

pub record WifiRequest : Type 0 where
  pub ssid : Text
  pub bssid : Text
  pub passphrase : Text
  pub prefix : Bool
  pub wpa3 : Bool

-- What request_network returns.
pub data Requested : Type 0 where
  requested : ℤ → Requested
  refused : Text → Requested

pub record Device : Type 0 where
  pub info : DeviceInfo
  pub endpoint : Endpoint
  pub reachable : Bool
  pub hotspot : Bool

-- enum class Stage.
pub data Stage : Type 0 where
  searching devices_listed joining_hotspot scanning networks_listed sending joining finding : Stage
  saving done failing : Stage

pub record Snapshot : Type 0 where
  pub stage : Stage
  pub devices : List Device
  pub device : Device
  pub networks : List WifiNetwork
  pub target : Text
  pub message : Text
  pub prompt : Bool
  pub joined : Bool
  pub retry : Bool
  pub failed : Stage

-- The members of Session that the worker uses.
pub record Session : Type 0 where
  pub work : Snapshot
  pub shared : Snapshot
  pub known : List DeviceInfo
  pub hotspot_request : ℤ
  pub target_request : ℤ

pub record SessionConfig : Type 0 where
  pub http_port : ℕ
  pub https_port : ℕ
  pub hotspot_address : ℕ

-- The calls of the phone and the network, on the state `W` of both: platform.h, http.h and
-- discovery.h, the clock, the commands that interrupt, and the file of the known devices.
pub record Phone (W : Type 0) : Type 0 where
  pub request : Endpoint → Text → Text → Text → W → HttpResult × W
  pub list_networks : W → List PhoneNetwork × W
  pub request_network : WifiRequest → W → Requested × W
  pub release_network : ℤ → W → W
  pub query_mdns : PhoneNetwork → W → List ℕ × W
  pub sweep_subnet : PhoneNetwork → W → List ℕ × W
  pub pause : W → Bool × W
  pub interrupted : W → Bool × W
  pub waited_long : W → Bool × W
  pub save_file : List DeviceInfo → W → W
  pub parse_address : Text → ℕ

-- A part of the worker's program: from the session and the world to a result, and both after it.
abbrev pub Run : Type 0 → Type 0 → Type 0
Run W A = Session → W → A × Session × W

module _ {W : Type 0} where
  unfoldable pub return : {A : Type 0} → A → Run W A
  return a s w = (a, s, w)

  infixl 10 ◌>>=◌
  unfoldable pub ◌>>=◌ : {A B : Type 0} → Run W A → (A → Run W B) → Run W B
  (r >>= next) s w = let (a, s', w') = r s w in next a s' w'

  unfoldable pub ask : {A : Type 0} → (W → A × W) → Run W A
  ask f s w = let (a, w') = f w in (a, s, w')

  unfoldable pub act : (W → W) → Run W (Unit {0})
  act f s w = (tt, s, f w)

  unfoldable pub get : Run W Session
  get s w = (s, s, w)

  unfoldable pub put_session : Session → Run W (Unit {0})
  put_session s' s w = (tt, s', w)

  -- A change of the snapshot that the worker prepares.
  unfoldable pub change : (Snapshot → Snapshot) → Run W (Unit {0})
  change f s w = (tt, record s { work = f s.work }, w)

unfoldable pub is_done : Stage → Bool
is_done done = true
is_done _ = false

unfoldable pub name_of : Device → Text
name_of d = if is_empty d.info.name then bytes_of "The Chromecast" else d.info.name
