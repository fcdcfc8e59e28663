-- ===== src/NativeButtons/Gestures/Tests.antt =====
-- A tap that becomes a pinch.
use phone.Prelude.{ℕ, refl, true, false, ltb, List, [], ◌∷◌, none, All}
use phone.NativeButtons.Gestures.{Gestures, Action, Motion, Pixels, has_pair}
use phone.NativeButtons.Gestures.Taps.{IsNoTap, handle_all, handle_all-IsNoTap}

abbrev pixels : Pixels
pixels = record {
  hypot = λ a b c d. a;
  is_finite = λ x. true;
  less = λ a b. ltb a b;
  ratio = λ a b. a;
  is_size = λ x. true;
  twice = λ x. x;
}

-- One finger is down.
abbrev pressed : Gestures
pressed = record {
  active = true;
  multitouch = false;
  first_id = none;
  second_id = none;
  span = 0;
  minimum_span = 16;
}

abbrev event : Action → List ℕ → Motion
event action pointers = record {
  action = action;
  pointers = pointers;
  history = 0;
  x = λ i sample. 50;
  y = λ i sample. 60;
}

-- A second finger comes and goes, and the first moves on and is lifted.
abbrev later : List Motion
later =
    event (Action.pointer_up_action 1) (4 ∷ 7 ∷ [])
    ∷ event Action.move_action (4 ∷ [])
    ∷ event Action.up_action (4 ∷ [])
    ∷ []

handle_all-IsNoTap_example :
    All IsNoTap
      (handle_all pixels pressed (event Action.pointer_down_action (4 ∷ 7 ∷ []) ∷ later)).1
unfolding has_pair
handle_all-IsNoTap_example =
    handle_all-IsNoTap pixels pressed (event Action.pointer_down_action (4 ∷ 7 ∷ [])) later refl
      refl ((λ e. cc), ((λ e. cc), ((λ e. cc), tt)))
