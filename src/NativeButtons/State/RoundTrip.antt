-- ===== src/NativeButtons/State/RoundTrip.antt =====
-- What encode_state writes, decode_state reads back.
use phone.Prelude.{
  ℕ, ◌%◌, ◌^◌, ◌≤◌, ◌<◌, ◌≡◌, ◌≢◌, refl, sym, ap, ◌∙◌, bit_and, Bool, true, false, not, List, [],
  some, length, leb, ◌==◌, arith,
}
use phone.Prelude.Masks.{and_not}
use phone.Prelude.Results.{ok}
use mathlib.Core.List.{append_assoc, append-nil}
use phone.Sudoku.Game.{ℤ, pos}
use phone.Sudoku.Game.Save.{put_word, get_word}
use phone.Sudoku.Game.Save.RoundTrip.{get_word-put_word}
use phone.NativeButtons.State.{
  Bird, SessionState, StateRecord, state_magic, state_version, Floats, int_word, bird_code,
  state_flags, record_bytes, encode_state, read_record, flags_bird, valid_record, bird_of,
  state_of_record, accept, decode_state,
}

-- The flags of a valid selection pass the tests and give back the three choices.
abbrev HasChoices : Bool → Bool → Bird → ℕ → Type 0
HasChoices maximum paused bird flags =
    (flags < 256 ^ 4)
    × ((and_not flags 15 == 0) ≡ true)
    × ((flags_bird flags == 3) ≡ false)
    × (not (bit_and flags 1 == 0) ≡ maximum)
    × (not (bit_and flags 2 == 0) ≡ paused)
    × (bird_of (flags_bird flags) ≡ bird)

state_flags-HasChoices :
    (m p : Bool) (bird : Bird) → bird ≢ Bird.unknown → HasChoices m p bird (state_flags m p bird)
unfolding state_flags bird_code and_not flags_bird bird_of
state_flags-HasChoices true true Bird.pelican h = (omega arith, refl, refl, refl, refl, refl)
state_flags-HasChoices true true Bird.flamingo h = (omega arith, refl, refl, refl, refl, refl)
state_flags-HasChoices true true Bird.eagle h = (omega arith, refl, refl, refl, refl, refl)
state_flags-HasChoices true false Bird.pelican h = (omega arith, refl, refl, refl, refl, refl)
state_flags-HasChoices true false Bird.flamingo h = (omega arith, refl, refl, refl, refl, refl)
state_flags-HasChoices true false Bird.eagle h = (omega arith, refl, refl, refl, refl, refl)
state_flags-HasChoices false true Bird.pelican h = (omega arith, refl, refl, refl, refl, refl)
state_flags-HasChoices false true Bird.flamingo h = (omega arith, refl, refl, refl, refl, refl)
state_flags-HasChoices false true Bird.eagle h = (omega arith, refl, refl, refl, refl, refl)
state_flags-HasChoices false false Bird.pelican h = (omega arith, refl, refl, refl, refl, refl)
state_flags-HasChoices false false Bird.flamingo h = (omega arith, refl, refl, refl, refl, refl)
state_flags-HasChoices false false Bird.eagle h = (omega arith, refl, refl, refl, refl, refl)
state_flags-HasChoices m p Bird.unknown h = absurd (h refl)

-- A session as the program keeps it, with a count from 0 to 999999.
pub record IsRestorable (f : Floats) (s : SessionState) (n : ℕ) : Type 0 where
  pub counted : s.count ≡ pos n
  pub within : n ≤ 999999
  pub known : s.bird ≢ Bird.unknown
  pub yaw_small : s.yaw < 256 ^ 4
  pub zoom_small : s.zoom < 256 ^ 4
  pub time_small : s.time < 256 ^ 8
  pub yaw_finite : f.is_finite s.yaw ≡ true
  pub time_finite : f.is_finite_double s.time ≡ true
  pub time_positive : f.is_negative_double s.time ≡ false
  pub zoom_finite : f.is_finite s.zoom ≡ true
  pub zoom_within : f.is_zoom s.zoom ≡ true

module _ (f : Floats) (s : SessionState) (n : ℕ) (k : IsRestorable f s n) where
  abbrev saved : StateRecord
  saved = record {
    magic = state_magic;
    version = state_version;
    count = n;
    flags = state_flags s.maximum s.paused s.bird;
    yaw = s.yaw;
    zoom = s.zoom;
    time = s.time;
  }

  choices : HasChoices s.maximum s.paused s.bird (state_flags s.maximum s.paused s.bird)
  choices = state_flags-HasChoices s.maximum s.paused s.bird k.known

  encode_state-record_bytes : encode_state s ≡ record_bytes saved
  unfolding encode_state int_word
  encode_state-record_bytes =
      let word : n % 2 ^ 32 ≡ n = omega (arith, k.within) in rw (k.counted, word) refl

  length-record_bytes : length (record_bytes saved) ≡ 32
  unfolding record_bytes put_word
  length-record_bytes = refl

  read_record-record_bytes : read_record (record_bytes saved) ≡ some saved
  unfolding read_record record_bytes
  read_record-record_bytes = simp append_assoc (
      rw
        (
          get_word-put_word 4 state_magic _ (omega arith),
          get_word-put_word 4 state_version _ (omega arith),
          get_word-put_word 4 n _ (omega (arith, k.within)),
          get_word-put_word 4 (state_flags s.maximum s.paused s.bird) _ choices.0,
          get_word-put_word 4 s.yaw _ k.yaw_small,
          get_word-put_word 4 s.zoom _ k.zoom_small,
          last,
        )
        refl)
    where
      last : get_word 8 (put_word 8 s.time) ≡ some (s.time, [])
      last =
          ap (λ (bytes : List ℕ). get_word 8 bytes) (sym (append-nil (put_word 8 s.time)))
          ∙ get_word-put_word 8 s.time [] k.time_small

  valid_record_lem : valid_record f saved ≡ true
  unfolding valid_record
  valid_record_lem =
      let below : leb n 999999 ≡ true = ground (arith, k.within) in
      rw
        (
          below, choices.1, choices.2, k.yaw_finite, k.time_finite, k.time_positive, k.zoom_finite,
          k.zoom_within,
        )
        refl

  state_of_record_lem : state_of_record saved ≡ s
  unfolding state_of_record
  state_of_record_lem =
      rw (choices.3, choices.4, choices.5) (ap (λ (c : ℤ). record s { count = c }) (sym k.counted))

  -- Encoding a session as the program keeps it, with a count from 0 to 999999, and decoding the bytes
  -- gives the same session.
  pub decode_state-encode_state : decode_state f (encode_state s) ≡ ok s
  unfolding decode_state accept
  decode_state-encode_state =
      rw
        (
          encode_state-record_bytes, length-record_bytes, read_record-record_bytes,
          valid_record_lem, state_of_record_lem,
        )
        refl
