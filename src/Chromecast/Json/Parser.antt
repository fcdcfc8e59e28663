-- ===== src/Chromecast/Json/Parser.antt =====
-- chromecast/json.cc: Parser::value, parse_json, the lookups and quote.
pub mod Lengths
pub mod Total
pub mod Quoting
use phone.Prelude.{
  ℕ, zero, suc, ◌+◌, ◌*◌, ◌/◌, ◌%◌, Bool, true, false, not, ◌&&◌, List, [], ◌∷◌, ◌++◌, Option, none,
  some, length, list_eq, ltb, leb, ◌==◌, if◌then◌else◌, ◌>>=◌,
}
use phone.Prelude.Integers.{ℤ}
use phone.Prelude.Texts.{bytes_of}
use phone.Chromecast.Json.{
  Text, Json, Items, Fields, null, bool, number, string, array, object, no_items, item, no_fields,
  field, Numbers, Outcome, parsed, failed, out_of_fuel, bind, of_option, space, starts, tail,
  literal, quoted, parse_number,
}

abbrev pub maximum_depth : ℕ
maximum_depth = 32

-- A literal that was read has the value; otherwise the next attempt counts.
unfoldable pub or_else : Option Text → Json → Option (Json × Text) → Option (Json × Text)
or_else (some rest) value later = some (value, rest)
or_else none value later = later

unfoldable pub number_value : Option (ℕ × Text) → Option (Json × Text)
number_value none = none
number_value (some (n, rest)) = some (number n, rest)

-- The literals and numbers, tried in the order of the source.
unfoldable pub parse_word : Numbers → Text → Option (Json × Text)
parse_word f text = or_else (literal (bytes_of "true") text) (bool true) (
    or_else (literal (bytes_of "false") text) (bool false)
      (or_else (literal (bytes_of "null") text) null (number_value (parse_number f text))))

-- A value that is neither an object nor an array.
unfoldable pub parse_scalar : Numbers → Text → Outcome (Json × Text)
parse_scalar f text =
    if starts b'"' text
    then bind (quoted text) (λ (s, rest). parsed (string s, rest))
    else of_option (parse_word f text)

-- text[at++] is the byte.
unfoldable pub expect : ℕ → Text → Outcome Text
expect byte text = if starts byte text then parsed (tail text) else failed

-- Parser::value on the text from `at` on; each call of it and of its loops costs a unit of fuel.
unfoldable mutual
  pub parse_value : Numbers → ℕ → ℕ → Text → Outcome (Json × Text)
  parse_value f zero depth text = out_of_fuel
  parse_value f (suc fuel) depth text =
      let start = space text in
      let inner = space (tail start) in
      let members =
        bind (parse_members f fuel depth (tail start)) (λ (fs, rest). parsed (object fs, rest)) in
      let elements =
        bind (parse_items f fuel depth (tail start)) (λ (xs, rest). parsed (array xs, rest)) in
      if ltb maximum_depth depth
      then failed
      else if starts b'{' start
      then (if starts b'}' inner then parsed (object no_fields, tail inner) else members)
      else if starts b'[' start
      then (if starts b']' inner then parsed (array no_items, tail inner) else elements)
      else parse_scalar f start

  -- The loop over the members of an object.
  pub parse_members : Numbers → ℕ → ℕ → Text → Outcome (Fields × Text)
  parse_members f zero depth text = out_of_fuel
  parse_members f (suc fuel) depth text = bind (quoted (space text)) (λ (key, text1).
      bind (expect b':' (space text1)) (λ text2.
        bind (parse_value f fuel (depth + 1) text2) (λ (value, text3).
          let after = space text3 in
          let later =
            bind (parse_members f fuel depth (tail after))
              (λ (fs, rest). parsed (field key value fs, rest)) in
          if starts b',' after
          then later
          else if starts b'}' after
          then parsed (field key value no_fields, tail after)
          else failed)))

  -- The loop over the elements of an array.
  pub parse_items : Numbers → ℕ → ℕ → Text → Outcome (Items × Text)
  parse_items f zero depth text = out_of_fuel
  parse_items f (suc fuel) depth text =
      bind (parse_value f fuel (depth + 1) text) (λ (value, text1).
        let after = space text1 in
        let later =
          bind (parse_items f fuel depth (tail after))
            (λ (xs, rest). parsed (item value xs, rest)) in
        if starts b',' after
        then later
        else if starts b']' after
        then parsed (item value no_items, tail after)
        else failed)

-- The whole text is one value.
unfoldable pub end_of_text : Json → Text → Outcome Json
end_of_text value [] = parsed value
end_of_text value (c ∷ text) = failed

unfoldable pub parse_json : Numbers → Text → Outcome Json
parse_json f text =
    bind (parse_value f (2 * length text + 1) 0 text)
      (λ (value, rest). end_of_text value (space rest))

-- The first member with the key.
unfoldable pub member : Text → Fields → Option Json
member key no_fields = none
member key (field k value fs) =
    let later = member key fs in if list_eq k key then some value else later

unfoldable pub step_into : Text → Option Json → Option Json
step_into key (some (object fs)) = member key fs
step_into key _ = none

-- find; a null pointer is `none`.
unfoldable pub find : Option Json → List Text → Option Json
find value [] = value
find value (key ∷ path) = find (step_into key value) path

unfoldable pub as_string : Option Json → Option Text
as_string (some (string s)) = some s
as_string _ = none

unfoldable pub as_bool : Option Json → Option Bool
as_bool (some (bool b)) = some b
as_bool _ = none

unfoldable pub as_integer : Numbers → Option Json → Option ℤ
as_integer f (some (number n)) = if f.is_integer n then some (f.to_integer n) else none
as_integer f _ = none

unfoldable pub hex_char : ℕ → ℕ
hex_char d = if ltb d 10 then b'0' + d else b'W' + d

-- The bytes that quote writes for one; "\\u%04x" of a number below 0x20.
unfoldable pub quote_char : ℕ → Text
quote_char c =
    if c == b'"'
    then b'\\' ∷ b'"' ∷ []
    else if c == b'\\'
    then b'\\' ∷ b'\\' ∷ []
    else if c == 10
    then b'\\' ∷ b'n' ∷ []
    else if c == 13
    then b'\\' ∷ b'r' ∷ []
    else if c == 9
    then b'\\' ∷ b't' ∷ []
    else if ltb c 0x20
    then b'\\' ∷ b'u' ∷ b'0' ∷ b'0' ∷ hex_char (c / 16) ∷ hex_char (c % 16) ∷ []
    else c ∷ []

unfoldable pub quote_chars : Text → Text
quote_chars [] = []
quote_chars (c ∷ text) = quote_char c ++ quote_chars text

unfoldable pub quote : Text → Text
quote value = b'"' ∷ (quote_chars value ++ (b'"' ∷ []))
