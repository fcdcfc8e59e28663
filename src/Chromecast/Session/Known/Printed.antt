-- ===== src/Chromecast/Session/Known/Printed.antt =====
-- What the parser makes of the texts that encode_known writes.
use phone.Prelude.Texts.{bytes_of}
use phone.Prelude.{
  ℕ, zero, suc, ◌+◌, ◌≤◌, ◌≡◌, refl, sym, ap, ◌∙◌, false, List, [], ◌∷◌, ◌++◌, length, ltb, arith,
}
use mathlib.Core.List.{append_assoc}
use phone.Chromecast.Json.{
  Text, Json, Items, Fields, string, array, object, no_items, item, no_fields, field, Numbers,
  parsed, bind, space, is_space, starts, quoted,
}
use phone.Chromecast.Json.Parser.{
  parse_scalar, expect, parse_value, parse_members, parse_items, quote, quote_char, quote_chars,
}
use phone.Chromecast.Json.Parser.Quoting.{quoted-quote}
use phone.Chromecast.Protocol.{DeviceInfo}
use phone.Chromecast.Session.Known.{key_text, members_text, members_of, device_text}

-- The members that the parser makes of them.
abbrev pub fields_of : List (Text × Text) → Fields
fields_of [] = no_fields
fields_of ((key, value) ∷ ms) = field key (string value) (fields_of ms)

-- A key that quote writes as it is.
abbrev IsPlain : Text → Type 0
IsPlain key = quote_chars key ≡ key

abbrev ArePlain : List (Text × Text) → Type 0
ArePlain [] = Unit {0}
ArePlain ((key, value) ∷ ms) = IsPlain key × ArePlain ms

-- A value that starts with a quotation mark is a string.
parse_value-quote :
    (f : Numbers) (fuel depth : ℕ) (s rest : Text)
    → depth ≤ 32
    → parse_value f (suc fuel) depth (quote s ++ rest) ≡ parsed (string s, rest)
unfolding parse_value space is_space starts quote parse_scalar
parse_value-quote f fuel depth s rest h =
    let shallow : ltb 32 depth ≡ false = ground arith in
    let text : quoted (quote s ++ rest) ≡ parsed (s, rest) = quoted-quote s rest in
    rw (shallow, text) refl

quoted-key_text :
    (key text : Text) → IsPlain key → quoted (key_text key ++ text) ≡ parsed (key, b':' ∷ text)
unfolding quote
quoted-key_text key text plain =
    let same : key_text key ++ text ≡ quote key ++ (b':' ∷ text) = rw plain (
      ap (λ (t : Text). b'"' ∷ t)
        (append_assoc key (b'"' ∷ b':' ∷ []) text
          ∙ sym (append_assoc key (b'"' ∷ []) (b':' ∷ text)))) in
    rw same (quoted-quote key (b':' ∷ text))

module _ (f : Numbers) (fuel depth : ℕ) (shallow : depth + 1 ≤ 32) (key value text : Text)
    (plain : IsPlain key) where
  last_member :
      parse_members f (suc (suc fuel)) depth (key_text key ++ (quote value ++ (b'}' ∷ text)))
      ≡ parsed (field key (string value) no_fields, text)
  unfolding parse_members space is_space expect starts
  last_member =
      rw
        (
          quoted-key_text key (quote value ++ (b'}' ∷ text)) plain,
          parse_value-quote f fuel (depth + 1) value (b'}' ∷ text) shallow,
        )
        refl

  next_member :
      parse_members f (suc (suc fuel)) depth (key_text key ++ (quote value ++ (b',' ∷ text)))
      ≡ bind
          (parse_members f (suc fuel) depth text)
          (λ (fs, rest). parsed (field key (string value) fs, rest))
  unfolding parse_members space is_space expect starts
  next_member =
      rw
        (
          quoted-key_text key (quote value ++ (b',' ∷ text)) plain,
          parse_value-quote f fuel (depth + 1) value (b',' ∷ text) shallow,
        )
        refl

parse_members-members_text :
    (f : Numbers) (fuel depth : ℕ) (key value : Text) (ms : List (Text × Text)) (rest : Text)
    → depth + 1 ≤ 32
    → length ms ≤ fuel
    → IsPlain key
    → ArePlain ms
    → parse_members f (suc (suc fuel)) depth (members_text ((key, value) ∷ ms) ++ (b'}' ∷ rest))
      ≡ parsed (field key (string value) (fields_of ms), rest)
unfolding members_text
parse_members-members_text f fuel depth key value [] rest shallow h plain others =
    rw (append_assoc (key_text key) (quote value) (b'}' ∷ rest))
      (last_member f fuel depth shallow key value rest plain)
parse_members-members_text f zero depth key value (m ∷ ms) rest shallow h plain others =
    absurd (omega arith)
parse_members-members_text f (suc fuel) depth key value ((k, v) ∷ ms) rest shallow h plain others =
    let later = members_text ((k, v) ∷ ms) in
    let text = later ++ (b'}' ∷ rest) in
    let regroup : (key_text key ++ (quote value ++ (b',' ∷ later))) ++ (b'}' ∷ rest)
        ≡ key_text key ++ (quote value ++ (b',' ∷ text)) =
      append_assoc (key_text key) (quote value ++ (b',' ∷ later)) (b'}' ∷ rest)
      ∙ ap (λ (t : Text). key_text key ++ t)
          (append_assoc (quote value) (b',' ∷ later) (b'}' ∷ rest)) in
    rw (regroup, next_member f (suc fuel) depth shallow key value text plain)
      (rw
        (parse_members-members_text f fuel depth k v ms rest shallow (omega arith) others.0
          others.1)
        refl)

abbrev pub row_of : DeviceInfo → Json
row_of d = object (fields_of (members_of d))

plain_members : (d : DeviceInfo) → ArePlain (members_of d)
unfolding quote_chars quote_char
plain_members d = (refl, (refl, (refl, (refl, (refl, (refl, (refl, tt)))))))

-- The parser on the members between the braces.
members_between :
    (f : Numbers) (fuel depth : ℕ) (d : DeviceInfo) (rest : Text)
    → depth + 1 ≤ 32
    → 6 ≤ fuel
    → parse_members f (suc (suc fuel)) depth ((members_text (members_of d) ++ (b'}' ∷ [])) ++ rest)
      ≡ parsed (fields_of (members_of d), rest)
members_between f fuel depth d rest shallow h =
    let plain = plain_members d in
    rw (append_assoc (members_text (members_of d)) (b'}' ∷ []) rest) (
      parse_members-members_text f fuel depth (bytes_of "name") d.name
        ((bytes_of "model", d.model)
          ∷ (bytes_of "mac", d.mac)
          ∷ (bytes_of "udn", d.udn)
          ∷ (bytes_of "hotspot_bssid", d.hotspot_bssid)
          ∷ (bytes_of "ssid", d.ssid)
          ∷ (bytes_of "ip", d.ip)
          ∷ [])
        rest shallow h plain.0 plain.1)

module _ (f : Numbers) (fuel depth : ℕ) (text rest : Text) where
  object_value :
      (fs : Fields)
      → depth ≤ 32
      → starts b'}' (space text) ≡ false
      → parse_members f fuel depth text ≡ parsed (fs, rest)
      → parse_value f (suc fuel) depth (b'{' ∷ text) ≡ parsed (object fs, rest)
  unfolding parse_value space is_space starts
  object_value fs shallow some_member members =
      let inside : ltb 32 depth ≡ false = ground arith in rw (inside, some_member, members) refl

  pub array_value :
      (xs : Items)
      → depth ≤ 32
      → starts b']' (space text) ≡ false
      → parse_items f fuel depth text ≡ parsed (xs, rest)
      → parse_value f (suc fuel) depth (b'[' ∷ text) ≡ parsed (array xs, rest)
  unfolding parse_value space is_space starts
  array_value xs shallow some_item items =
      let inside : ltb 32 depth ≡ false = ground arith in rw (inside, some_item, items) refl

  last_item :
      (x : Json)
      → parse_value f fuel (depth + 1) text ≡ parsed (x, b']' ∷ rest)
      → parse_items f (suc fuel) depth text ≡ parsed (item x no_items, rest)
  unfolding parse_items space is_space starts
  last_item x value = rw value refl

  next_item :
      (x : Json) (xs : Items) (later : Text)
      → parse_value f fuel (depth + 1) text ≡ parsed (x, b',' ∷ later)
      → parse_items f fuel depth later ≡ parsed (xs, rest)
      → parse_items f (suc fuel) depth text ≡ parsed (item x xs, rest)
  unfolding parse_items space is_space starts
  next_item x xs later value items = rw (value, items) refl

pub parse_value-device_text :
    (f : Numbers) (fuel depth : ℕ) (d : DeviceInfo) (rest : Text)
    → depth + 1 ≤ 32
    → 9 ≤ fuel
    → parse_value f fuel depth (device_text d ++ rest) ≡ parsed (row_of d, rest)
unfolding device_text
parse_value-device_text f zero depth d rest shallow h = absurd (omega arith)
parse_value-device_text f (suc zero) depth d rest shallow h = absurd (omega arith)
parse_value-device_text f (suc (suc zero)) depth d rest shallow h = absurd (omega arith)
parse_value-device_text f (suc (suc (suc fuel))) depth d rest shallow h =
    let text = (members_text (members_of d) ++ (b'}' ∷ [])) ++ rest in
    object_value f (suc (suc fuel)) depth text rest (fields_of (members_of d)) (omega arith)
      (unfold members_text space is_space starts in refl)
      (members_between f fuel depth d rest shallow (omega arith))

-- The rows after the first, as encode_known writes them.
abbrev pub rows_after : List DeviceInfo → Text
rows_after [] = []
rows_after (d ∷ ds) = b',' ∷ (device_text d ++ rows_after ds)

abbrev pub items_of : List DeviceInfo → Items
items_of [] = no_items
items_of (d ∷ ds) = item (row_of d) (items_of ds)

pub parse_items-rows :
    (f : Numbers) (fuel : ℕ) (d : DeviceInfo) (ds : List DeviceInfo)
    → length ds + 10 ≤ fuel
    → parse_items f fuel 0 (device_text d ++ (rows_after ds ++ (b']' ∷ [])))
      ≡ parsed (items_of (d ∷ ds), [])
parse_items-rows f zero d ds h = absurd (omega arith)
parse_items-rows f (suc fuel) d [] h =
    last_item f fuel 0 (device_text d ++ (b']' ∷ [])) [] (row_of d)
      (parse_value-device_text f fuel 1 d (b']' ∷ []) (omega arith) (omega arith))
parse_items-rows f (suc fuel) d (e ∷ ds) h =
    let later = device_text e ++ (rows_after ds ++ (b']' ∷ [])) in
    let regroup : rows_after (e ∷ ds) ++ (b']' ∷ []) ≡ b',' ∷ later =
      ap (λ (t : Text). b',' ∷ t) (append_assoc (device_text e) (rows_after ds) (b']' ∷ [])) in
    rw regroup (
      next_item f fuel 0 (device_text d ++ (b',' ∷ later)) [] (row_of d) (items_of (e ∷ ds)) later
        (parse_value-device_text f fuel 1 d (b',' ∷ later) (omega arith) (omega arith))
        (parse_items-rows f fuel e ds (omega arith)))
