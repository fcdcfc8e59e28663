-- ===== src/Chromecast/Json/Parser/Lengths.antt =====
-- Each token of the parser takes bytes from its text, and ends.
use phone.Prelude.{
  ℕ, zero, suc, ◌+◌, ◌-◌, ◌*◌, ◌≤◌, ◌<◌, ◌≡◌, refl, Bool, true, false, not, ◌||◌, [], ◌∷◌, ◌++◌,
  Option, none, some, length, ltb, leb, ◌==◌, if◌then◌else◌, if-both, if-each, ◌>>=◌, require,
  arith,
}
use phone.Chromecast.Json.{
  Text, Outcome, parsed, failed, out_of_fuel, bind, space, starts, tail, literal, hex_from, hex4,
  unicode, Piece, closed, more, bad, piece_of, escape, character, add_piece, string_loop, quoted,
  digits, optional, marked, number_token, is_empty, is_space, is_digit, leading_zero, hex_digit,
  is_high, is_low,
}

-- The text that is left is shorter than the bound, and the fuel was enough.
abbrev pub Within {ℓ} : {A : Type ℓ} → ℕ → Outcome (A × Text) → Type 0
Within n (parsed (a, rest)) = length rest < n
Within n failed = Unit {0}
Within n out_of_fuel = ⊥

abbrev pub WithinSome {ℓ} : {A : Type ℓ} → ℕ → Option (A × Text) → Type 0
WithinSome n none = Unit {0}
WithinSome n (some (a, rest)) = length rest < n

pub bind-Within {ℓ κ} :
    {A : Type ℓ} {B : Type κ} (n m : ℕ) (r : Outcome (A × Text)) (k : A × Text → Outcome (B × Text))
    → Within n r
    → ((a : A) (rest : Text) → length rest < n → Within m (k (a, rest)))
    → Within m (bind r k)
bind-Within n m (parsed (a, rest)) k h next = next a rest h
bind-Within n m failed k h next = tt
bind-Within n m out_of_fuel k h next = h

pub step-WithinSome {ℓ κ} :
    {A : Type ℓ} {B : Type κ} (n m : ℕ) (r : Option (A × Text)) (k : A × Text → Option (B × Text))
    → WithinSome n r
    → ((a : A) (rest : Text) → length rest < n → WithinSome m (k (a, rest)))
    → WithinSome m (r >>= k)
step-WithinSome n m none k h next = tt
step-WithinSome n m (some (a, rest)) k h next = next a rest h

pub widen-WithinSome {ℓ} :
    {A : Type ℓ} (n m : ℕ) (r : Option (A × Text)) → n ≤ m → WithinSome n r → WithinSome m r
widen-WithinSome n m none le h = tt
widen-WithinSome n m (some (a, rest)) le h = omega arith

try-WithinSome {ℓ κ} :
    {A : Type ℓ} {B : Type κ} (m : ℕ) (o : Option A) (k : A → Option (B × Text))
    → ((a : A) → WithinSome m (k a))
    → WithinSome m (o >>= k)
try-WithinSome m none k h = tt
try-WithinSome m (some a) k h = h a

pub require-WithinSome {ℓ} :
    {A : Type ℓ} (n : ℕ) (b : Bool) (r : Option (A × Text))
    → (b ≡ true → WithinSome n r)
    → WithinSome n (require b >>= (λ (u : Unit {0}). r))
require-WithinSome n true r h = h refl
require-WithinSome n false r h = tt

pub length-space : (text : Text) → length (space text) ≤ length text
unfolding space
length-space [] = omega arith
length-space (c ∷ text) =
    if-both (λ (t : Text). length t ≤ suc (length text)) (is_space c)
      (omega (arith, length-space text)) (omega arith)

pub length-tail :
    (byte : ℕ) (text : Text) → starts byte text ≡ true → length (tail text) < length text
unfolding starts
length-tail byte [] h = absurd cc
length-tail byte (c ∷ text) h = omega arith

pub length-tail_le : (text : Text) → length (tail text) ≤ length text
length-tail_le [] = omega arith
length-tail_le (c ∷ text) = omega arith

abbrev pub AtMost : Text → Option Text → Type 0
AtMost text none = Unit {0}
AtMost text (some rest) = length rest ≤ length text

pub literal-AtMost : (word text : Text) → AtMost text (literal word text)
unfolding literal
literal-AtMost [] text = omega arith
literal-AtMost (w ∷ word) [] = tt
literal-AtMost (w ∷ word) (c ∷ text) =
    if-both (AtMost (c ∷ text)) (c == w) (weaken (literal word text) (literal-AtMost word text)) tt
  where
    weaken : (r : Option Text) → AtMost text r → AtMost (c ∷ text) r
    weaken none h = tt
    weaken (some rest) h = omega arith

hex_from-WithinSome :
    (n value : ℕ) (text : Text) → WithinSome (suc (length text)) (hex_from n value text)
unfolding hex_from
hex_from-WithinSome zero value text = omega arith
hex_from-WithinSome (suc n) value [] = tt
hex_from-WithinSome (suc n) value (c ∷ text) = try-WithinSome _ (hex_digit c) _ (λ d.
    widen-WithinSome (suc (length text)) _ _ (omega arith)
      (hex_from-WithinSome n (value * 16 + d) text))

hex4-WithinSome : (text : Text) → WithinSome (suc (length text)) (hex4 text)
unfolding hex4
hex4-WithinSome text =
    if-both (WithinSome (suc (length text))) (leb 4 (length text)) (hex_from-WithinSome 4 0 text) tt

unicode-WithinSome : (text : Text) → WithinSome (suc (length text)) (unicode text)
unfolding unicode
unicode-WithinSome text =
    step-WithinSome (suc (length text)) _ (hex4 text) _ (hex4-WithinSome text) (λ code text1 less.
      if-both (WithinSome (suc (length text))) (is_high code)
        (paired text1 (literal (b'\\' ∷ b'u' ∷ []) text1) code less
          (literal-AtMost (b'\\' ∷ b'u' ∷ []) text1))
        (if-both (WithinSome (suc (length text))) (is_low code) tt less))
  where
    paired :
        (text1 : Text) (after : Option Text) (code : ℕ)
        → length text1 < suc (length text)
        → AtMost text1 after
        → WithinSome (suc (length text)) (
            after >>= (λ (text2 : Text). hex4 text2 >>= (λ (r : ℕ × Text).
              require (is_low r.0) >>= (λ (u : Unit {0}).
                some (0x10000 + (code - 0xd800) * 1024 + (r.0 - 0xdc00), r.1)))))
    paired text1 none code less h = tt
    paired text1 (some text2) code less h =
        step-WithinSome (suc (length text2)) _ (hex4 text2) _ (hex4-WithinSome text2)
          (λ low text3 fewer. require-WithinSome _ (is_low low) _ (λ e. omega arith))

abbrev PieceWithin : ℕ → Piece → Type 0
PieceWithin n (closed rest) = length rest < n
PieceWithin n (more bytes rest) = length rest < n
PieceWithin n bad = Unit {0}

piece_of-PieceWithin : (n : ℕ) (r : Option (ℕ × Text)) → WithinSome n r → PieceWithin n (piece_of r)
unfolding piece_of
piece_of-PieceWithin n none h = tt
piece_of-PieceWithin n (some (code, rest)) h = h

escape-PieceWithin : (text : Text) → PieceWithin (suc (length text)) (escape text)
unfolding escape
escape-PieceWithin [] = tt
escape-PieceWithin (e ∷ text) =
    let short : length text < suc (suc (length text)) = omega arith in
    let P : Piece → Type 0 = PieceWithin (suc (suc (length text))) in
    if-both P (e == b'"' || e == b'\\' || e == b'/') short (
      if-both P (e == b'b') short (
        if-both P (e == b'f') short (
          if-both P (e == b'n') short (
            if-both P (e == b'r') short (
              if-both P (e == b't') short (
                if-both P (e == b'u')
                  (piece_of-PieceWithin _ (unicode text) (
                    widen-WithinSome (suc (length text)) _ (unicode text) (omega arith)
                      (unicode-WithinSome text)))
                  tt))))))

widen-PieceWithin : (n m : ℕ) (p : Piece) → n ≤ m → PieceWithin n p → PieceWithin m p
widen-PieceWithin n m (closed rest) le h = omega arith
widen-PieceWithin n m (more bytes rest) le h = omega arith
widen-PieceWithin n m bad le h = tt

character-PieceWithin : (text : Text) → PieceWithin (length text) (character text)
unfolding character
character-PieceWithin [] = tt
character-PieceWithin (c ∷ text) =
    let P : Piece → Type 0 = PieceWithin (suc (length text)) in
    if-both P (c == b'"') (omega arith) (
      if-both P (ltb c 0x20) tt
        (if-both P (not (c == b'\\')) (omega arith) (escape-PieceWithin text)))

pub widen-Within {ℓ} :
    {A : Type ℓ} (n m : ℕ) (r : Outcome (A × Text)) → n ≤ m → Within n r → Within m r
widen-Within n m (parsed (a, rest)) le h = omega arith
widen-Within n m failed le h = tt
widen-Within n m out_of_fuel le h = h

add_piece-Within :
    (n : ℕ) (go : Text → Text → Outcome (Text × Text)) (out : Text) (p : Piece)
    → PieceWithin n p
    → ((rest bytes : Text) → length rest < n → Within n (go rest (out ++ bytes)))
    → Within n (add_piece go out p)
unfolding add_piece
add_piece-Within n go out (closed rest) h next = h
add_piece-Within n go out (more bytes rest) h next = next rest bytes h
add_piece-Within n go out bad h next = tt

string_loop-Within :
    (fuel : ℕ) (text out : Text)
    → length text < fuel
    → Within (length text) (string_loop fuel text out)
unfolding string_loop
string_loop-Within zero text out h = absurd (omega arith)
string_loop-Within (suc fuel) text out h =
    add_piece-Within (length text) (string_loop fuel) out (character text)
      (character-PieceWithin text)
      (λ rest bytes less.
        widen-Within (length rest) (length text) _ (omega arith)
          (string_loop-Within fuel rest (out ++ bytes) (omega arith)))

pub quoted-Within : (text : Text) → Within (length text) (quoted text)
unfolding quoted
quoted-Within text =
    if-each (Within (length text)) (starts b'"' text)
      (λ e.
        widen-Within _ (length text) (string_loop (length text) (tail text) [])
          (length-tail_le text)
          (string_loop-Within (length text) (tail text) [] (length-tail b'"' text e)))
      (λ e. tt)

length-digits : (text : Text) → length (digits text).1 ≤ length text
unfolding digits
length-digits [] = omega arith
length-digits (c ∷ text) =
    if-both (λ (r : Text × Text). length r.1 ≤ suc (length text)) (is_digit c)
      (omega (arith, length-digits text)) (omega arith)

length-optional : (a b : ℕ) (text : Text) → length (optional a b text).1 ≤ length text
unfolding optional
length-optional a b [] = omega arith
length-optional a b (c ∷ text) =
    if-both (λ (r : Text × Text). length r.1 ≤ suc (length text)) (c == a || c == b) (omega arith)
      (omega arith)

-- Digits that are there take a byte.
length-digits_less :
    (text : Text) → is_empty (digits text).0 ≡ false → length (digits text).1 < length text
unfolding digits is_empty
length-digits_less [] = λ h. absurd cc
length-digits_less (c ∷ text) =
    if-both (λ (r : Text × Text). is_empty r.0 ≡ false → length r.1 < suc (length text))
      (is_digit c) (λ h. omega (arith, length-digits text)) (λ h. absurd cc)

marked-WithinSome :
    (a b : ℕ) (signed : Bool) (text : Text)
    → WithinSome (suc (length text)) (marked a b signed text)
unfolding marked
marked-WithinSome a b signed text =
    let text1 = (optional a b text).1 in
    let after = if signed then optional b'+' b'-' text1 else ([], text1) in
    let short : length after.1 ≤ length text1 =
      if-both (λ (r : Text × Text). length r.1 ≤ length text1) signed
        (length-optional b'+' b'-' text1) (omega arith) in
    if-both (WithinSome (suc (length text))) (is_empty (optional a b text).0) (omega arith) (
      if-both (WithinSome (suc (length text))) (is_empty (digits after.1).0) tt
        (omega (arith, length-optional a b text, short, length-digits after.1)))

not-empty : (text : Text) → not (is_empty text) ≡ true → is_empty text ≡ false
not-empty text h = ground arith

pub number_token-WithinSome : (text : Text) → WithinSome (length text) (number_token text)
unfolding number_token
number_token-WithinSome text =
    let text1 = (optional b'-' b'-' text).1 in
    let text2 = (digits text1).1 in
    require-WithinSome (length text) (not (leading_zero text1)) _ (λ e.
      require-WithinSome (length text) (not (is_empty (digits text1).0)) _ (λ e.
        let less : length text2 < length text1 =
          length-digits_less text1 (not-empty (digits text1).0 e) in
        step-WithinSome (suc (length text2)) _ (marked b'.' b'.' false text2) _
          (marked-WithinSome b'.' b'.' false text2)
          (λ fraction text3 shorter.
            step-WithinSome (suc (length text3)) _ (marked b'e' b'E' true text3) _
              (marked-WithinSome b'e' b'E' true text3)
              (λ exponent text4 shortest. omega (arith, less, length-optional b'-' b'-' text)))))
