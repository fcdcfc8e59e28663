-- ===== src/NativeButtons/State.antt =====
-- encode_state and decode_state of native_buttons/state.cc. Floats and doubles are bit patterns, and
-- the bytes are those of sudoku/game.cc's saved words: little-endian.
pub mod RoundTrip
mod Tests
use package.phone.Prelude.{
  ℕ, ◌+◌, ◌-◌, ◌*◌, ◌/◌, ◌%◌, ◌^◌, bit_or, bit_and, Bool, true, false, not, ◌&&◌, ◌||◌, List, ◌++◌,
  Option, none, some, length, ltb, leb, ◌==◌, if◌then◌else◌, ◌>>=◌,
}
use package.phone.Prelude.Masks.{and_not}
use package.phone.Prelude.Results.{Result, ok, error}
use package.phone.Sudoku.Game.{ℤ, pos, negsuc}
use package.phone.Sudoku.Game.Save.{put_word, get_word}

-- `unknown` is a value that is none of the enumerators.
pub data Bird : Type 0 where
  pelican flamingo eagle unknown : Bird

pub record SessionState : Type 0 where
  pub count : ℤ
  pub maximum : Bool
  pub paused : Bool
  pub yaw : ℕ
  pub time : ℕ
  pub zoom : ℕ
  pub bird : Bird

-- The members of StateRecord, each as its unsigned word.
pub record StateRecord : Type 0 where
  pub magic : ℕ
  pub version : ℕ
  pub count : ℕ
  pub flags : ℕ
  pub yaw : ℕ
  pub zoom : ℕ
  pub time : ℕ

abbrev pub state_magic : ℕ
state_magic = 0x50454c49

abbrev pub state_version : ℕ
state_version = 4

-- The tests of the bit patterns: finite floats and doubles, time < 0, zoom outside its limits.
pub record Floats : Type 0 where
  pub is_finite : ℕ → Bool
  pub is_finite_double : ℕ → Bool
  pub is_negative_double : ℕ → Bool
  pub is_zoom : ℕ → Bool

-- The word of an std::int32_t.
unfoldable pub int_word : ℤ → ℕ
int_word (pos n) = n % 2 ^ 32
int_word (negsuc n) = 2 ^ 32 - 1 - n % 2 ^ 32

unfoldable pub bird_code : Bird → ℕ
bird_code Bird.pelican = 0
bird_code Bird.flamingo = 1
bird_code Bird.eagle = 2
bird_code Bird.unknown = 3

unfoldable pub state_flags : Bool → Bool → Bird → ℕ
state_flags maximum paused bird =
    bit_or (bit_or (if maximum then 1 else 0) (if paused then 2 else 0)) (bird_code bird * 4)

unfoldable pub record_bytes : StateRecord → List ℕ
record_bytes r =
    put_word 4 r.magic
    ++ put_word 4 r.version
    ++ put_word 4 r.count
    ++ put_word 4 r.flags
    ++ put_word 4 r.yaw
    ++ put_word 4 r.zoom
    ++ put_word 8 r.time

unfoldable pub encode_state : SessionState → List ℕ
encode_state s = record_bytes (record {
  magic = state_magic;
  version = state_version;
  count = int_word s.count;
  flags = state_flags s.maximum s.paused s.bird;
  yaw = s.yaw;
  zoom = s.zoom;
  time = s.time;
})

-- The memcpy of decode_state.
unfoldable pub read_record : List ℕ → Option StateRecord
read_record bytes0 = do
  (magic, bytes1) ← get_word 4 bytes0
  (version, bytes2) ← get_word 4 bytes1
  (count, bytes3) ← get_word 4 bytes2
  (flags, bytes4) ← get_word 4 bytes3
  (yaw, bytes5) ← get_word 4 bytes4
  (zoom, bytes6) ← get_word 4 bytes5
  (time, bytes7) ← get_word 8 bytes6
  some (record {
    magic = magic;
    version = version;
    count = count;
    flags = flags;
    yaw = yaw;
    zoom = zoom;
    time = time;
  })

-- record.flags >> 2 & 3
unfoldable pub flags_bird : ℕ → ℕ
flags_bird flags = bit_and (flags / 4) 3

-- The conditions of decode_state, each that of a valid record; a count that is negative as an
-- std::int32_t is above 999999 as a word.
unfoldable pub valid_record : Floats → StateRecord → Bool
valid_record f r =
    r.magic == state_magic
    && r.version == state_version
    && leb r.count 999999
    && and_not r.flags 15 == 0
    && not (flags_bird r.flags == 3)
    && f.is_finite r.yaw
    && f.is_finite_double r.time
    && not (f.is_negative_double r.time)
    && f.is_finite r.zoom
    && f.is_zoom r.zoom

unfoldable pub bird_of : ℕ → Bird
bird_of code = if code == 1 then Bird.flamingo else if code == 2 then Bird.eagle else Bird.pelican

unfoldable pub state_of_record : StateRecord → SessionState
state_of_record r = record {
  count = pos r.count;
  maximum = not (bit_and r.flags 1 == 0);
  paused = not (bit_and r.flags 2 == 0);
  yaw = r.yaw;
  time = r.time;
  zoom = r.zoom;
  bird = bird_of (flags_bird r.flags);
}

unfoldable pub accept : Floats → Option StateRecord → Result SessionState
accept f none = error "Invalid or unsupported Activity state"
accept f (some r) =
    if valid_record f r
    then ok (state_of_record r)
    else error "Invalid or unsupported Activity state"

unfoldable pub decode_state : Floats → List ℕ → Result SessionState
decode_state f bytes =
    if not (length bytes == 32)
    then error "Invalid Activity state size"
    else accept f (read_record bytes)
