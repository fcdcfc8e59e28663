-- ===== src/NativeButtons/Gestures.antt =====
-- The touch gestures of native_buttons/gestures.cc. Pixels are the bit patterns of floats; the calls
-- of the runtime's touch and pinch are listed in their order.
pub mod Taps
mod Tests
use package.phone.Prelude.{
  ℕ, zero, suc, ◌+◌, ◌-◌, Bool, true, false, not, ◌&&◌, ◌||◌, List, [], ◌∷◌, ◌++◌, Option, none,
  some, ltb, leb, ◌==◌, if◌then◌else◌,
}

pub data Touch : Type 0 where
  down_touch move_touch up_touch cancel_touch : Touch

pub data Call : Type 0 where
  touch_call : Touch → ℕ → ℕ → Call
  pinch_call : ℕ → Call

-- struct Gestures; an identifier of -1 is `none`.
pub record Gestures : Type 0 where
  pub active : Bool
  pub multitouch : Bool
  pub first_id : Option ℕ
  pub second_id : Option ℕ
  pub span : ℕ
  pub minimum_span : ℕ

-- The masked action, and that of any other number.
pub data Action : Type 0 where
  down_action up_action move_action cancel_action pointer_down_action : Action
  pointer_up_action : ℕ → Action
  other_action : Action

-- What the event answers: its action with the pointer index, its pointers' identifiers, the number of
-- historical samples, and the positions by pointer index and sample, the current one being the sample
-- after the historical ones.
pub record Motion : Type 0 where
  pub action : Action
  pub pointers : List ℕ
  pub history : ℕ
  pub x : ℕ → ℕ → ℕ
  pub y : ℕ → ℕ → ℕ

-- The floating-point operations: the span of two points, std::isfinite, a < b, a / b, whether a size
-- is finite and positive, and twice a size.
pub record Pixels : Type 0 where
  pub hypot : ℕ → ℕ → ℕ → ℕ → ℕ
  pub is_finite : ℕ → Bool
  pub less : ℕ → ℕ → Bool
  pub ratio : ℕ → ℕ → ℕ
  pub is_size : ℕ → Bool
  pub twice : ℕ → ℕ

-- create_gestures, or `none` when its allocation fails; 0x41800000 is 16.
unfoldable pub create_gestures : Bool → Option Gestures
create_gestures allocated =
    if allocated
    then some (record {
      active = false;
      multitouch = false;
      first_id = none;
      second_id = none;
      span = 0;
      minimum_span = 0x41800000;
    })
    else none

unfoldable pub is_index : Option ℕ → ℕ → Bool
is_index none i = false
is_index (some j) i = i == j

-- The last place of an identifier, from index `i` on, but for the excluded index.
unfoldable pub find_id : List ℕ → ℕ → Option ℕ → Option ℕ → Option ℕ → Option ℕ
find_id [] i excluded id found = found
find_id (p ∷ pointers) i excluded id found =
    find_id pointers (i + 1) excluded id
      (if not (is_index excluded i) && is_index id p then some i else found)

-- The indices from `i` on but for the excluded one; the first two are the pair.
unfoldable pub indices : List ℕ → ℕ → Option ℕ → List ℕ
indices [] i excluded = []
indices (p ∷ pointers) i excluded =
    let rest = indices pointers (i + 1) excluded in if is_index excluded i then rest else i ∷ rest

unfoldable pub first_pair : List ℕ → Option (ℕ × ℕ)
first_pair [] = none
first_pair (i ∷ []) = none
first_pair (i ∷ j ∷ rest) = some (i, j)

unfoldable pub same_pair : Option ℕ → Option ℕ → Option (ℕ × ℕ)
same_pair (some i) (some j) = some (i, j)
same_pair (some i) none = none
same_pair none second = none

unfoldable pub id_at : List ℕ → ℕ → Option ℕ
id_at [] i = none
id_at (p ∷ pointers) zero = some p
id_at (p ∷ pointers) (suc i) = id_at pointers i

-- update_pinch from the span on.
unfoldable pub scale_pinch : Pixels → Gestures → Bool → Bool → ℕ → Gestures × List Call
scale_pinch f g scale same span =
    let calls =
      if scale && same && not (f.less g.span g.minimum_span)
      then pinch_call (f.ratio span g.span) ∷ []
      else [] in
    if not (f.is_finite span) || f.less span g.minimum_span
    then (record g { span = 0 }, [])
    else (record g { span = span }, calls)

unfoldable pub pinch_pair :
    Pixels → Gestures → Motion → Bool → Bool → ℕ → Option (ℕ × ℕ) → Gestures × List Call
pinch_pair f g e scale same sample none =
    (record g { span = 0; first_id = none; second_id = none }, [])
pinch_pair f g e scale same sample (some (i, j)) =
    scale_pinch f (record g { first_id = id_at e.pointers i; second_id = id_at e.pointers j }) scale
      same (f.hypot (e.x i sample) (e.y i sample) (e.x j sample) (e.y j sample))

unfoldable pub choose_pair :
    Pixels → Gestures → Motion → Option ℕ → Bool → ℕ → Option (ℕ × ℕ) → Gestures × List Call
choose_pair f g e excluded scale sample none =
    pinch_pair f g e scale false sample (first_pair (indices e.pointers 0 excluded))
choose_pair f g e excluded scale sample (some pair) = pinch_pair f g e scale true sample (some pair)

unfoldable pub update_pinch :
    Pixels → Gestures → Motion → Option ℕ → Bool → ℕ → Gestures × List Call
update_pinch f g e excluded scale sample = choose_pair f g e excluded scale sample (
    same_pair (find_id e.pointers 0 excluded g.first_id none)
      (find_id e.pointers 0 excluded g.second_id none))

unfoldable pub cancel_gestures : Gestures → Gestures × List Call
cancel_gestures g = (
  record g { active = false; multitouch = false; span = 0; first_id = none; second_id = none },
  touch_call Touch.cancel_touch 0 0 ∷ [],
)

unfoldable pub set_gesture_slop : Pixels → Gestures → ℕ → Gestures × List Call
set_gesture_slop f g pixels =
    let (g', calls) = cancel_gestures g in
    if f.is_size pixels then (record g' { minimum_span = f.twice pixels }, calls) else (g, [])

-- The samples from `sample` on, `n` of them, of a MOVE with two pointers.
unfoldable pub pinch_samples : ℕ → ℕ → Pixels → Gestures → Motion → Gestures × List Call
pinch_samples zero sample f g e = (g, [])
pinch_samples (suc n) sample f g e =
    let (g', calls) = update_pinch f g e none true sample in
    let (g'', later) = pinch_samples n (sample + 1) f g' e in (g'', calls ++ later)

unfoldable pub move_samples : ℕ → ℕ → Motion → List Call
move_samples zero sample e = []
move_samples (suc n) sample e =
    touch_call Touch.move_touch (e.x 0 sample) (e.y 0 sample) ∷ move_samples n (sample + 1) e

unfoldable pub has_pair : List ℕ → Bool
has_pair [] = false
has_pair (p ∷ []) = false
has_pair (p ∷ q ∷ pointers) = true

unfoldable pub move_pair : Pixels → Gestures → Motion → Gestures × List Call
move_pair f g e =
    let (g', calls) = pinch_samples (e.history + 1) 0 f (record g { multitouch = true }) e in
    (g', (if g.multitouch then [] else touch_call Touch.cancel_touch 0 0 ∷ []) ++ calls)

unfoldable pub change_pointers : Pixels → Gestures → Motion → Option ℕ → Gestures × List Call
change_pointers f g e excluded =
    let (g', calls) = update_pinch f (record g { multitouch = true }) e excluded false e.history in
    (g', touch_call Touch.cancel_touch 0 0 ∷ calls)

-- handle_motion for an active gesture.
unfoldable pub continue_motion : Pixels → Gestures → Motion → Action → Gestures × List Call
continue_motion f g e Action.up_action =
    let (g', calls) = cancel_gestures g in
    (
      g',
      (if g.multitouch
            then []
            else touch_call Touch.up_touch (e.x 0 e.history) (e.y 0 e.history) ∷ [])
          ++ calls,
    )
continue_motion f g e Action.pointer_down_action = change_pointers f g e none
continue_motion f g e (Action.pointer_up_action i) = change_pointers f g e (some i)
continue_motion f g e Action.move_action =
    if has_pair e.pointers
    then move_pair f g e
    else if not g.multitouch
    then (g, move_samples (e.history + 1) 0 e)
    else (g, [])
continue_motion f g e Action.down_action = (g, [])
continue_motion f g e Action.cancel_action = (g, [])
continue_motion f g e Action.other_action = (g, [])

unfoldable pub start_motion : Gestures → Motion → Gestures × List Call
start_motion g e =
    let (g', calls) = cancel_gestures g in
    (
      record g' { active = true },
      calls ++ (touch_call Touch.down_touch (e.x 0 e.history) (e.y 0 e.history) ∷ []),
    )

-- handle_motion for an event with a pointer.
unfoldable pub dispatch : Pixels → Gestures → Motion → Action → Gestures × List Call
dispatch f g e Action.cancel_action = cancel_gestures g
dispatch f g e Action.down_action = start_motion g e
dispatch f g e Action.up_action =
    if g.active then continue_motion f g e Action.up_action else (g, [])
dispatch f g e Action.move_action =
    if g.active then continue_motion f g e Action.move_action else (g, [])
dispatch f g e Action.pointer_down_action =
    if g.active then continue_motion f g e Action.pointer_down_action else (g, [])
dispatch f g e (Action.pointer_up_action i) =
    if g.active then continue_motion f g e (Action.pointer_up_action i) else (g, [])
dispatch f g e Action.other_action = (g, [])

unfoldable pub handle_pointers : Pixels → Gestures → Motion → List ℕ → Gestures × List Call
handle_pointers f g e [] = cancel_gestures g
handle_pointers f g e (p ∷ pointers) = dispatch f g e e.action

unfoldable pub handle_motion : Pixels → Gestures → Motion → Gestures × List Call
handle_motion f g e = handle_pointers f g e e.pointers
