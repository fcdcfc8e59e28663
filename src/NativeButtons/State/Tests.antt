-- ===== src/NativeButtons/State/Tests.antt =====
-- A session with a flamingo.
use phone.Prelude.{◌/◌, ◌%◌, ◌^◌, ◌≡◌, refl, true, false, not, ltb, leb, ◌==◌, ◌&&◌, arith}
use phone.Prelude.Results.{ok}
use phone.Sudoku.Game.{pos}
use phone.NativeButtons.State.{Bird, SessionState, Floats, encode_state, decode_state}
use phone.NativeButtons.State.RoundTrip.{IsRestorable, decode_state-encode_state}

-- Positive floats are ordered as their bit patterns are.
abbrev floats : Floats
floats = record {
  is_finite = λ x. not (x / 2 ^ 23 % 256 == 255);
  is_finite_double = λ x. not (x / 2 ^ 52 % 2048 == 2047);
  is_negative_double = λ x. not (ltb x (2 ^ 63));
  is_zoom = λ x. leb 0x3f000000 x && leb x 0x40200000;
}

abbrev session : SessionState
session = record {
  count = pos 12;
  maximum = true;
  paused = false;
  yaw = 0;
  time = 0;
  zoom = 0x3f800000;
  bird = Bird.flamingo;
}

session-IsRestorable : IsRestorable floats session 12
session-IsRestorable = record {
  counted = refl;
  within = omega arith;
  known = λ e. cc;
  yaw_small = omega arith;
  zoom_small = omega arith;
  time_small = omega arith;
  yaw_finite = refl;
  time_finite = refl;
  time_positive = refl;
  zoom_finite = refl;
  zoom_within = refl;
}

decode_state-encode_state_example : decode_state floats (encode_state session) ≡ ok session
decode_state-encode_state_example = decode_state-encode_state floats session 12 session-IsRestorable
