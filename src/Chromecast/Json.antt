-- ===== src/Chromecast/Json.antt =====
-- chromecast/json.cc: the values, and the parser's tokens. A text is the list of its bytes, and a
-- function of Parser takes the text from `at` on and returns what is left.
pub mod Parser
use package.phone.Prelude.Integers.{ℤ}
use package.phone.Prelude.{
  ℕ, zero, suc, ◌+◌, ◌-◌, ◌*◌, ◌/◌, ◌%◌, Bool, true, false, not, ◌&&◌, ◌||◌, List, [], ◌∷◌, ◌++◌,
  Option, none, some, length, ltb, leb, ◌==◌, if◌then◌else◌, ◌>>=◌, require, bit_or, bit_and,
}

abbrev pub Text : Type 0
Text = List ℕ

-- struct Json. A number is the bit pattern of its double; keys and items stand together.
mutual
  pub data Json : Type 0 where
    null : Json
    bool : Bool → Json
    number : ℕ → Json
    string : Text → Json
    array : Items → Json
    object : Fields → Json

  pub data Items : Type 0 where
    no_items : Items
    item : Json → Items → Items

  pub data Fields : Type 0 where
    no_fields : Fields
    field : Text → Json → Fields → Fields

-- The floating-point functions of json.cc on bit patterns: strtod, std::isfinite, whether a double is
-- an integer of at most 9e15 either way, and its conversion to that integer.
pub record Numbers : Type 0 where
  pub strtod : Text → ℕ
  pub is_finite : ℕ → Bool
  pub is_integer : ℕ → Bool
  pub to_integer : ℕ → ℤ

-- What a function of the parser returns. `out_of_fuel` has no counterpart in the program.
pub data Outcome {ℓ} (A : Type ℓ) : Type ℓ where
  parsed : A → Outcome A
  failed out_of_fuel : Outcome A

abbrev pub bind {ℓ κ} : {A : Type ℓ} {B : Type κ} → Outcome A → (A → Outcome B) → Outcome B
bind (parsed a) next = next a
bind failed next = failed
bind out_of_fuel next = out_of_fuel

abbrev pub of_option {ℓ} : {A : Type ℓ} → Option A → Outcome A
of_option none = failed
of_option (some a) = parsed a

unfoldable pub is_space : ℕ → Bool
is_space c = c == b' ' || c == 9 || c == 10 || c == 13

unfoldable pub space : Text → Text
space [] = []
space (c ∷ text) = let rest = space text in if is_space c then rest else c ∷ text

-- text[at] is the byte; false at the end.
unfoldable pub starts : ℕ → Text → Bool
starts byte [] = false
starts byte (c ∷ text) = c == byte

abbrev pub tail : Text → Text
tail [] = []
tail (c ∷ text) = text

unfoldable pub literal : Text → Text → Option Text
literal [] text = some text
literal (w ∷ word) [] = none
literal (w ∷ word) (c ∷ text) = let rest = literal word text in if c == w then rest else none

-- What append_utf8 appends.
unfoldable pub utf8 : ℕ → Text
utf8 code =
    if ltb code 0x80
    then code ∷ []
    else if ltb code 0x800
    then bit_or 0xc0 (code / 64) ∷ bit_or 0x80 (bit_and code 0x3f) ∷ []
    else if ltb code 0x10000
    then bit_or 0xe0 (code / 4096)
      ∷ bit_or 0x80 (bit_and (code / 64) 0x3f)
      ∷ bit_or 0x80 (bit_and code 0x3f)
      ∷ []
    else bit_or 0xf0 (code / 262144)
      ∷ bit_or 0x80 (bit_and (code / 4096) 0x3f)
      ∷ bit_or 0x80 (bit_and (code / 64) 0x3f)
      ∷ bit_or 0x80 (bit_and code 0x3f)
      ∷ []

unfoldable pub hex_digit : ℕ → Option ℕ
hex_digit c =
    if leb b'0' c && leb c b'9'
    then some (c - b'0')
    else if leb b'a' c && leb c b'f'
    then some (c - b'a' + 10)
    else if leb b'A' c && leb c b'F'
    then some (c - b'A' + 10)
    else none

-- A digit is added to four bits that the shift has cleared.
unfoldable pub hex_from : ℕ → ℕ → Text → Option (ℕ × Text)
hex_from zero value text = some (value, text)
hex_from (suc n) value [] = none
hex_from (suc n) value (c ∷ text) = do digit ← hex_digit c; hex_from n (value * 16 + digit) text

unfoldable pub hex4 : Text → Option (ℕ × Text)
hex4 text = if leb 4 (length text) then hex_from 4 0 text else none

unfoldable pub is_high : ℕ → Bool
is_high code = leb 0xd800 code && ltb code 0xdc00

unfoldable pub is_low : ℕ → Bool
is_low code = leb 0xdc00 code && ltb code 0xe000

-- The case 'u' of string: the code point and what is left.
unfoldable pub unicode : Text → Option (ℕ × Text)
unicode text = do
  (code, text1) ← hex4 text
  let pair = do
    text2 ← literal (b'\\' ∷ b'u' ∷ []) text1
    (low, text3) ← hex4 text2
    _ ← require (is_low low)
    some (0x10000 + (code - 0xd800) * 1024 + (low - 0xdc00), text3)
  if is_high code then pair else if is_low code then none else some (code, text1)

-- One round of string's loop: the end of the string, the bytes appended, or an error.
pub data Piece : Type 0 where
  closed : Text → Piece
  more : Text → Text → Piece
  bad : Piece

unfoldable pub piece_of : Option (ℕ × Text) → Piece
piece_of none = bad
piece_of (some (code, rest)) = more (utf8 code) rest

unfoldable pub escape : Text → Piece
escape [] = bad
escape (e ∷ text) =
    if e == b'"' || e == b'\\' || e == b'/'
    then more (e ∷ []) text
    else if e == b'b'
    then more (8 ∷ []) text
    else if e == b'f'
    then more (12 ∷ []) text
    else if e == b'n'
    then more (10 ∷ []) text
    else if e == b'r'
    then more (13 ∷ []) text
    else if e == b't'
    then more (9 ∷ []) text
    else if e == b'u'
    then piece_of (unicode text)
    else bad

unfoldable pub character : Text → Piece
character [] = bad
character (c ∷ text) =
    if c == b'"'
    then closed text
    else if ltb c 0x20
    then bad
    else if not (c == b'\\')
    then more (c ∷ []) text
    else escape text

-- What a round does with `out`; `go` is the rest of the loop.
unfoldable pub add_piece :
    (Text → Text → Outcome (Text × Text)) → Text → Piece → Outcome (Text × Text)
add_piece go out (closed rest) = parsed (out, rest)
add_piece go out (more bytes rest) = go rest (out ++ bytes)
add_piece go out bad = failed

unfoldable pub string_loop : ℕ → Text → Text → Outcome (Text × Text)
string_loop zero text out = out_of_fuel
string_loop (suc fuel) text out = add_piece (string_loop fuel) out (character text)

-- Parser::string; a round of the loop takes a byte of the text at least.
unfoldable pub quoted : Text → Outcome (Text × Text)
quoted text = if starts b'"' text then string_loop (length text) (tail text) [] else failed

unfoldable pub is_digit : ℕ → Bool
is_digit c = leb b'0' c && leb c b'9'

-- The digits at the start, and what is left.
unfoldable pub digits : Text → Text × Text
digits [] = ([], [])
digits (c ∷ text) =
    let (ds, rest) = digits text in if is_digit c then (c ∷ ds, rest) else ([], c ∷ text)

unfoldable pub is_empty : Text → Bool
is_empty [] = true
is_empty (c ∷ text) = false

-- An optional byte of the two given.
unfoldable pub optional : ℕ → ℕ → Text → Text × Text
optional a b [] = ([], [])
optional a b (c ∷ text) = if c == a || c == b then (c ∷ [], text) else ([], c ∷ text)

unfoldable pub leading_zero : Text → Bool
leading_zero [] = false
leading_zero (z ∷ []) = false
leading_zero (z ∷ c ∷ text) = z == b'0' && is_digit c

-- A mark that digits must follow, with a sign between where it allows one; nothing without the mark.
unfoldable pub marked : ℕ → ℕ → Bool → Text → Option (Text × Text)
marked a b signed text =
    let (mark, text1) = optional a b text in
    let (sign, text2) = if signed then optional b'+' b'-' text1 else ([], text1) in
    let (ds, text3) = digits text2 in
    if is_empty mark
    then some ([], text)
    else if is_empty ds
    then none
    else some (mark ++ sign ++ ds, text3)

-- The token of number, and what is left.
unfoldable pub number_token : Text → Option (Text × Text)
number_token text = do
  let (sign, text1) = optional b'-' b'-' text
  _ ← require (not (leading_zero text1))
  let (ds, text2) = digits text1
  _ ← require (not (is_empty ds))
  (fraction, text3) ← marked b'.' b'.' false text2
  (exponent, text4) ← marked b'e' b'E' true text3
  some (sign ++ ds ++ fraction ++ exponent, text4)

unfoldable pub parse_number : Numbers → Text → Option (ℕ × Text)
parse_number f text = do
  (token, rest) ← number_token text
  _ ← require (f.is_finite (f.strtod token))
  some (f.strtod token, rest)
