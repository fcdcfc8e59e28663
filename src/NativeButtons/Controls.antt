-- ===== src/NativeButtons/Controls.antt =====
-- hit_test and safe_area of native_buttons/controls.cc. Pixels are the bit patterns of floats, and
-- their arithmetic is a parameter.
use phone.Prelude.{ℕ, Bool, ◌&&◌, ◌||◌, if◌then◌else◌}
use phone.Sudoku.App.{Rect}

pub data Control : Type 0 where
  nothing add reset quality pause bird : Control

pub record Controls : Type 0 where
  pub add : Rect
  pub reset : Rect
  pub quality : Rect
  pub pause : Rect
  pub bird : Rect

-- a >= b, a < b; x <= 0; a + b, a - b; std::clamp(x, low, high); an int as a float.
pub record Plane : Type 0 where
  pub at_least : ℕ → ℕ → Bool
  pub less : ℕ → ℕ → Bool
  pub is_empty : ℕ → Bool
  pub plus : ℕ → ℕ → ℕ
  pub minus : ℕ → ℕ → ℕ
  pub clamp : ℕ → ℕ → ℕ → ℕ
  pub to_float : ℕ → ℕ

-- gpu::contains of common/gpu/math.cc.
unfoldable pub contains : Plane → Rect → ℕ → ℕ → Bool
contains f r x y =
    f.at_least x r.x && f.at_least y r.y && f.less x (f.plus r.x r.w) && f.less y (f.plus r.y r.h)

unfoldable pub hit_test : Plane → Controls → ℕ → ℕ → Control
hit_test f c x y =
    if contains f c.add x y
    then Control.add
    else if contains f c.reset x y
    then Control.reset
    else if contains f c.quality x y
    then Control.quality
    else if contains f c.pause x y
    then Control.pause
    else if contains f c.bird x y
    then Control.bird
    else Control.nothing

unfoldable pub safe_area : Plane → Rect → ℕ → ℕ → Rect
safe_area f content width height =
    let left = f.clamp content.x 0 (f.to_float width) in
    let top = f.clamp content.y 0 (f.to_float height) in
    let right = f.clamp (f.plus content.x content.w) left (f.to_float width) in
    let bottom = f.clamp (f.plus content.y content.h) top (f.to_float height) in
    if f.is_empty content.w || f.is_empty content.h
    then record { x = 0; y = 0; w = f.to_float width; h = f.to_float height }
    else record { x = left; y = top; w = f.minus right left; h = f.minus bottom top }
