-- ===== src/NativeButtons/Gestures/Taps.antt =====
-- A pinch does not end in a tap.
use phone.Prelude.{
  ℕ, zero, suc, ◌+◌, ◌≡◌, ◌≢◌, refl, ◌∙◌, Bool, true, false, not, ◌&&◌, ◌||◌, List, [], ◌∷◌, ◌++◌,
  Option, none, some, All, if◌then◌else◌, All-append, if-both, if-each,
}
use phone.NativeButtons.Gestures.{
  Touch, Call, touch_call, pinch_call, Gestures, Action, Motion, Pixels, indices, first_pair,
  scale_pinch, pinch_pair, choose_pair, update_pinch, cancel_gestures, pinch_samples, has_pair,
  move_pair, change_pointers, continue_motion, dispatch, handle_pointers, handle_motion,
}

-- A call that can neither press, move nor release a button.
abbrev pub IsNoTap : Call → Type 0
IsNoTap (touch_call kind x y) = kind ≡ Touch.cancel_touch
IsNoTap (pinch_call ratio) = Unit {0}

-- The actions of an event in which fingers are down together.
abbrev pub of_fingers : Action → Bool
of_fingers Action.pointer_down_action = true
of_fingers (Action.pointer_up_action i) = true
of_fingers Action.move_action = true
of_fingers _ = false

-- An event that begins no gesture.
abbrev pub IsLater : Motion → Type 0
IsLater e = e.action ≢ Action.down_action

-- The events handled one after the other.
abbrev pub handle_all : Pixels → Gestures → List Motion → Gestures × List Call
handle_all f g [] = (g, [])
handle_all f g (e ∷ later) =
    let (g', calls) = handle_motion f g e in
    let (g'', others) = handle_all f g' later in (g'', calls ++ others)

-- No call of an event taps, and the flag of several fingers is `b` after it.
abbrev Steady : Bool → Gestures × List Call → Type 0
Steady b r = All IsNoTap r.1 × (r.0.multitouch ≡ b)

-- A gesture that goes on has had several fingers.
abbrev Pinching : Gestures → Type 0
Pinching g = g.active ≡ true → g.multitouch ≡ true

abbrev Pinches : Gestures × List Call → Type 0
Pinches r = All IsNoTap r.1 × Pinching r.0

module _ (f : Pixels) where
  scale_pinch-Steady :
      (g : Gestures) (scale same : Bool) (span : ℕ)
      → Steady g.multitouch (scale_pinch f g scale same span)
  unfolding scale_pinch
  scale_pinch-Steady g scale same span =
      if-both (Steady g.multitouch) (not (f.is_finite span) || f.less span g.minimum_span)
        (tt, refl)
        (
          if-both (All IsNoTap) (scale && same && not (f.less g.span g.minimum_span)) (tt, tt) tt,
          refl,
        )

  pinch_pair-Steady :
      (g : Gestures) (e : Motion) (scale same : Bool) (sample : ℕ) (pair : Option (ℕ × ℕ))
      → Steady g.multitouch (pinch_pair f g e scale same sample pair)
  unfolding pinch_pair
  pinch_pair-Steady g e scale same sample none = (tt, refl)
  pinch_pair-Steady g e scale same sample (some (i, j)) = scale_pinch-Steady _ scale same _

  choose_pair-Steady :
      (g : Gestures) (e : Motion) (excluded : Option ℕ) (scale : Bool) (sample : ℕ)
      (pair : Option (ℕ × ℕ))
      → Steady g.multitouch (choose_pair f g e excluded scale sample pair)
  unfolding choose_pair
  choose_pair-Steady g e excluded scale sample none =
      pinch_pair-Steady g e scale false sample (first_pair (indices e.pointers 0 excluded))
  choose_pair-Steady g e excluded scale sample (some pair) =
      pinch_pair-Steady g e scale true sample (some pair)

  update_pinch-Steady :
      (g : Gestures) (e : Motion) (excluded : Option ℕ) (scale : Bool) (sample : ℕ)
      → Steady g.multitouch (update_pinch f g e excluded scale sample)
  unfolding update_pinch
  update_pinch-Steady g e excluded scale sample = choose_pair-Steady g e excluded scale sample _

  pinch_samples-Steady :
      (n sample : ℕ) (g : Gestures) (e : Motion)
      → Steady g.multitouch (pinch_samples n sample f g e)
  unfolding pinch_samples
  pinch_samples-Steady zero sample g e = (tt, refl)
  pinch_samples-Steady (suc n) sample g e =
      let now = update_pinch-Steady g e none true sample in
      let later = pinch_samples-Steady n (sample + 1) (update_pinch f g e none true sample).0 e in
      (All-append IsNoTap _ _ now.0 later.0, later.1 ∙ now.1)

  change_pointers-Pinches :
      (g : Gestures) (e : Motion) (excluded : Option ℕ) → Pinches (change_pointers f g e excluded)
  unfolding change_pointers
  change_pointers-Pinches g e excluded =
      let pinch = update_pinch-Steady (record g { multitouch = true }) e excluded false e.history in
      ((refl, pinch.0), (λ _. pinch.1))

  move_pair-Pinches : (g : Gestures) (e : Motion) → Pinches (move_pair f g e)
  unfolding move_pair
  move_pair-Pinches g e =
      let pinch = pinch_samples-Steady (e.history + 1) 0 (record g { multitouch = true }) e in
      (
        All-append IsNoTap _ _ (if-both (All IsNoTap) g.multitouch tt (refl, tt)) pinch.0,
        (λ _. pinch.1),
      )

  cancel_gestures-Pinches : (g : Gestures) → Pinches (cancel_gestures g)
  unfolding cancel_gestures
  cancel_gestures-Pinches g = ((refl, tt), (λ h. absurd cc))

  -- A gesture that has had several fingers goes on.
  continue_motion-Pinches :
      (g : Gestures) (e : Motion) (action : Action)
      → g.multitouch ≡ true
      → Pinches (continue_motion f g e action)
  unfolding continue_motion cancel_gestures
  continue_motion-Pinches g e Action.up_action pinching = rw pinching ((refl, tt), (λ h. absurd cc))
  continue_motion-Pinches g e Action.pointer_down_action pinching = change_pointers-Pinches g e none
  continue_motion-Pinches g e (Action.pointer_up_action i) pinching =
      change_pointers-Pinches g e (some i)
  continue_motion-Pinches g e Action.move_action pinching =
      if-both Pinches (has_pair e.pointers) (move_pair-Pinches g e)
        (if-each Pinches (not g.multitouch) (λ h. absurd cc) (λ _. (tt, (λ _. pinching))))
  continue_motion-Pinches g e Action.down_action pinching = (tt, (λ _. pinching))
  continue_motion-Pinches g e Action.cancel_action pinching = (tt, (λ _. pinching))
  continue_motion-Pinches g e Action.other_action pinching = (tt, (λ _. pinching))

  -- Without an active gesture, nothing happens.
  when_active :
      (g : Gestures) (r : Gestures × List Call)
      → (g.active ≡ true → Pinches r)
      → Pinches (if g.active then r else (g, []))
  when_active g r h = if-each Pinches g.active h (λ e. (tt, (λ h'. absurd cc)))

  dispatch-Pinches :
      (g : Gestures) (e : Motion) (action : Action)
      → Pinching g
      → action ≢ Action.down_action
      → Pinches (dispatch f g e action)
  unfolding dispatch
  dispatch-Pinches g e Action.cancel_action h later = cancel_gestures-Pinches g
  dispatch-Pinches g e Action.down_action h later = absurd (later refl)
  dispatch-Pinches g e Action.up_action h later =
      when_active g _ (λ on. continue_motion-Pinches g e Action.up_action (h on))
  dispatch-Pinches g e Action.move_action h later =
      when_active g _ (λ on. continue_motion-Pinches g e Action.move_action (h on))
  dispatch-Pinches g e Action.pointer_down_action h later =
      when_active g _ (λ on. continue_motion-Pinches g e Action.pointer_down_action (h on))
  dispatch-Pinches g e (Action.pointer_up_action i) h later =
      when_active g _ (λ on. continue_motion-Pinches g e (Action.pointer_up_action i) (h on))
  dispatch-Pinches g e Action.other_action h later = (tt, h)

  -- The event that shows a second finger, whatever came before it.
  fingers-Pinches :
      (g : Gestures) (e : Motion) (action : Action)
      → has_pair e.pointers ≡ true
      → of_fingers action ≡ true
      → Pinches (dispatch f g e action)
  unfolding dispatch continue_motion
  fingers-Pinches g e Action.pointer_down_action pair h =
      when_active g _ (λ _. change_pointers-Pinches g e none)
  fingers-Pinches g e (Action.pointer_up_action i) pair h =
      when_active g _ (λ _. change_pointers-Pinches g e (some i))
  fingers-Pinches g e Action.move_action pair h =
      rw pair (when_active g _ (λ _. move_pair-Pinches g e))
  fingers-Pinches g e Action.down_action pair h = absurd cc
  fingers-Pinches g e Action.up_action pair h = absurd cc
  fingers-Pinches g e Action.cancel_action pair h = absurd cc
  fingers-Pinches g e Action.other_action pair h = absurd cc

  pointers-Pinches :
      (g : Gestures) (e : Motion) (pointers : List ℕ)
      → Pinches (dispatch f g e e.action)
      → Pinches (handle_pointers f g e pointers)
  unfolding handle_pointers
  pointers-Pinches g e [] h = cancel_gestures-Pinches g
  pointers-Pinches g e (p ∷ pointers) h = h

  later-NoTap :
      (g : Gestures) (later : List Motion)
      → Pinching g
      → All IsLater later
      → All IsNoTap (handle_all f g later).1
  unfolding handle_motion
  later-NoTap g [] h others = tt
  later-NoTap g (e ∷ later) h others =
      let now = pointers-Pinches g e e.pointers (dispatch-Pinches g e e.action h others.0) in
      All-append IsNoTap _ _ now.0 (later-NoTap (handle_motion f g e).0 later now.1 others.1)

  -- In every state, from an event on that shows two fingers down together, by POINTER_DOWN,
  -- POINTER_UP or MOVE, and until the next DOWN, whatever the events are, the runtime neither
  -- presses, moves nor releases a touch: it only cancels and pinches.
  pub handle_all-IsNoTap :
      (g : Gestures) (e : Motion) (later : List Motion)
      → has_pair e.pointers ≡ true
      → of_fingers e.action ≡ true
      → All IsLater later
      → All IsNoTap (handle_all f g (e ∷ later)).1
  unfolding handle_motion
  handle_all-IsNoTap g e later pair fingers others =
      let now = pointers-Pinches g e e.pointers (fingers-Pinches g e e.action pair fingers) in
      All-append IsNoTap _ _ now.0 (later-NoTap (handle_motion f g e).0 later now.1 others)
