-- ===== src/Chromecast/Session/Commands.antt =====
-- chromecast/session.cc: the commands that the calls of session.h leave for the worker thread, which
-- takes one at a time. What a command does stands between `take` and `finish_command`.
pub mod Latest
use phone.Prelude.Integers.{ℤ, pos, negsuc}
use phone.Prelude.{ℕ, ◌+◌, ◌%◌, ◌^◌, ◌≡◌, Bool, true, false, List, [], ◌∷◌, Option, none, some}
use phone.Chromecast.Json.{Text}

-- enum class Command, without kNone.
pub data Command : Type 0 where
  search open_device rescan join stop : Command

-- Where the worker thread is in its loop; `running` has the command, its argument and its password.
pub data Worker : Type 0 where
  waiting : Worker
  running : Command → ℤ → Text → Worker
  ended : Worker

-- The members of Session that a command passes through, and the worker.
pub record Mailbox : Type 0 where
  pub command : Option Command
  pub argument : ℤ
  pub password : Text
  pub sequence : ℕ
  pub pending : ℕ
  pub current : ℕ
  pub interrupted : Bool
  pub worker : Worker

abbrev pub initial : Mailbox
initial = record {
  command = none;
  argument = negsuc 0;
  password = [];
  sequence = 0;
  pending = 0;
  current = 0;
  interrupted = false;
  worker = waiting;
}

-- A call of session.h that sends a command.
pub data Request : Type 0 where
  search_request rescan_request : Request
  open_request : ℤ → Request
  join_request : ℤ → Text → Request

abbrev pub command_of : Request → Command
command_of search_request = search
command_of rescan_request = rescan
command_of (open_request index) = open_device
command_of (join_request network password) = join

abbrev pub argument_of : Request → ℤ
argument_of search_request = negsuc 0
argument_of rescan_request = negsuc 0
argument_of (open_request index) = index
argument_of (join_request network password) = network

abbrev pub password_of : Request → Text
password_of (join_request network password) = password
password_of _ = []

abbrev pub is_stop : Option Command → Bool
is_stop (some stop) = true
is_stop _ = false

-- What send writes unless the session is stopping.
unfoldable pub leave : Mailbox → ℕ → Request → Mailbox
leave m number request = record m {
  sequence = number;
  pending = number;
  command = some (command_of request);
  argument = argument_of request;
  password = password_of request;
  interrupted = true;
}

unfoldable pub leave_unless : Bool → Mailbox → ℕ → Request → Mailbox
leave_unless true m number request = record m { sequence = number }
leave_unless false m number request = leave m number request

-- The number that send returns.
unfoldable pub next_number : Mailbox → ℕ
next_number m = (m.sequence + 1) % 2 ^ 64

unfoldable pub send : Mailbox → Request → Mailbox
send m request = leave_unless (is_stop m.command) m (next_number m) request

unfoldable pub send_all : List Request → Mailbox → Mailbox
send_all [] m = m
send_all (request ∷ requests) m = send_all requests (send m request)

-- destroy, as far as it waits for the worker.
unfoldable pub destroy : Mailbox → Mailbox
destroy m = record m { command = some stop; interrupted = true }

-- The worker takes the command that was left.
unfoldable pub take_command : Mailbox → Option Command → Mailbox
take_command m none = m
take_command m (some command) = record m {
  command = none;
  password = [];
  current = m.pending;
  interrupted = false;
  worker = running command m.argument m.password;
}

-- The worker after a command: the loop ends with kStop.
unfoldable pub after_command : Command → Worker
after_command stop = ended
after_command _ = waiting

unfoldable pub finish_command : Mailbox → Command → Mailbox
finish_command m command = record m { worker = after_command command }

-- The worker's next step: the end of the command it runs, or the next command if one was left.
unfoldable pub advance_from : Mailbox → Worker → Mailbox
advance_from m waiting = take_command m m.command
advance_from m (running command argument password) = finish_command m command
advance_from m ended = m

unfoldable pub advance : Mailbox → Mailbox
advance m = advance_from m m.worker

-- One step of the callers or of the worker.
pub data Step : Mailbox → Mailbox → Type 0 where
  sends : (m : Mailbox) (request : Request) → Step m (send m request)
  stops : (m : Mailbox) → Step m (destroy m)
  advances : (m : Mailbox) → Step m (advance m)

pub data Reachable : Mailbox → Type 0 where
  start : Reachable initial
  then_step : {m n : Mailbox} → Reachable m → Step m n → Reachable n
