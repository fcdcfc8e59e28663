-- ===== src/Chromecast/Json/Parser/Total.antt =====
-- The fuel of parse_json is enough for every text: the parser ends.
use phone.Prelude.{
  ℕ, zero, suc, ◌+◌, ◌*◌, ◌≤◌, ◌<◌, ◌≡◌, ◌≢◌, refl, sym, true, [], ◌∷◌, Option, none, some, length,
  ltb, ◌==◌, if-both, if-each, arith,
}
use phone.Chromecast.Json.{
  Text, Json, Numbers, Outcome, parsed, failed, out_of_fuel, bind, of_option, space, starts, tail,
  literal, quoted, number_token, parse_number,
}
use phone.Chromecast.Json.Parser.{
  or_else, number_value, parse_word, parse_scalar, expect, parse_value, parse_members, parse_items,
  end_of_text, parse_json, maximum_depth,
}
use phone.Chromecast.Json.Parser.Lengths.{
  Within, WithinSome, AtMost, bind-Within, step-WithinSome, require-WithinSome, widen-Within,
  length-space, length-tail, literal-AtMost, quoted-Within, number_token-WithinSome,
}

parse_number-WithinSome :
    (f : Numbers) (text : Text) → WithinSome (length text) (parse_number f text)
unfolding parse_number
parse_number-WithinSome f text =
    step-WithinSome (length text) _ (number_token text) _ (number_token-WithinSome text)
      (λ token rest less. require-WithinSome _ (f.is_finite (f.strtod token)) _ (λ e. less))

-- A word that was read took its bytes.
literal-less :
    (w : ℕ) (word text rest : Text)
    → literal (w ∷ word) text ≡ some rest
    → length rest < length text
unfolding literal
literal-less w word [] rest = λ e. absurd cc
literal-less w word (c ∷ text) rest =
    if-both (λ (r : Option Text). r ≡ some rest → length rest < suc (length text)) (c == w)
      (λ e. shorter (literal word text) (literal-AtMost word text) e) (λ e. absurd cc)
  where
    shorter : (r : Option Text) → AtMost text r → r ≡ some rest → length rest < suc (length text)
    shorter none h e = absurd cc
    shorter (some left) h e = let same : left ≡ rest = cc in rw (sym same) (omega (arith, h))

or_else-WithinSome :
    (n : ℕ) (read : Option Text) (value : Json) (later : Option (Json × Text))
    → ((rest : Text) → read ≡ some rest → length rest < n)
    → WithinSome n later
    → WithinSome n (or_else read value later)
unfolding or_else
or_else-WithinSome n none value later less h = h
or_else-WithinSome n (some rest) value later less h = less rest refl

number_value-WithinSome :
    (n : ℕ) (r : Option (ℕ × Text)) → WithinSome n r → WithinSome n (number_value r)
unfolding number_value
number_value-WithinSome n none h = tt
number_value-WithinSome n (some (value, rest)) h = h

parse_word-WithinSome : (f : Numbers) (text : Text) → WithinSome (length text) (parse_word f text)
unfolding parse_word
parse_word-WithinSome f text = or_else-WithinSome _ _ _ _ (literal-less _ _ text) (
    or_else-WithinSome _ _ _ _ (literal-less _ _ text) (
      or_else-WithinSome _ _ _ _ (literal-less _ _ text)
        (number_value-WithinSome _ (parse_number f text) (parse_number-WithinSome f text))))

of_option-Within {ℓ} :
    {A : Type ℓ} (n : ℕ) (r : Option (A × Text)) → WithinSome n r → Within n (of_option r)
of_option-Within n none h = tt
of_option-Within n (some (a, rest)) h = h

parse_scalar-Within : (f : Numbers) (text : Text) → Within (length text) (parse_scalar f text)
unfolding parse_scalar
parse_scalar-Within f text =
    if-both (Within (length text)) (starts b'"' text)
      (bind-Within (length text) _ (quoted text) _ (quoted-Within text) (λ s rest less. less))
      (of_option-Within (length text) (parse_word f text) (parse_word-WithinSome f text))

expect-Within {ℓ} :
    {A : Type ℓ} (m byte : ℕ) (text : Text) (k : Text → Outcome (A × Text))
    → (starts byte text ≡ true → Within m (k (tail text)))
    → Within m (bind (expect byte text) k)
unfolding expect
expect-Within m byte text k h =
    if-each (λ (r : Outcome Text). Within m (bind r k)) (starts byte text) h (λ e. tt)

-- One induction on the fuel: each call gets twice the length of its text, and one for a value, two
-- for a loop, or more.
mutual
  unfolding parse_value

  parse_value-Within :
      (f : Numbers) (fuel depth : ℕ) (text : Text)
      → 2 * length text + 1 ≤ fuel
      → Within (length text) (parse_value f fuel depth text)
  parse_value-Within f zero depth text h = absurd (omega arith)
  parse_value-Within f (suc fuel) depth text h =
      let start = space text in
      let shorter = length-space text in
      let P : Outcome (Json × Text) → Type 0 = Within (length text) in
      if-both P (ltb maximum_depth depth) tt (
        if-each P (starts b'{' start)
          (λ e.
            let less = length-tail b'{' start e in
            if-each P (starts b'}' (space (tail start)))
              (λ e.
                omega (arith, length-tail b'}' (space (tail start)) e, length-space (tail start)))
              (λ e.
                bind-Within (length (tail start)) _ (parse_members f fuel depth (tail start)) _
                  (parse_members-Within f fuel depth (tail start) (omega (arith, less, shorter)))
                  (λ fs rest fewer. omega (arith, less, shorter))))
          (λ e.
            if-each P (starts b'[' start)
              (λ e.
                let less = length-tail b'[' start e in
                if-each P (starts b']' (space (tail start)))
                  (λ e.
                    omega
                      (arith, length-tail b']' (space (tail start)) e, length-space (tail start)))
                  (λ e.
                    bind-Within (length (tail start)) _ (parse_items f fuel depth (tail start)) _
                      (parse_items-Within f fuel depth (tail start) (omega (arith, less, shorter)))
                      (λ fs rest fewer. omega (arith, less, shorter))))
              (λ e. widen-Within _ (length text) _ shorter (parse_scalar-Within f start))))

  parse_members-Within :
      (f : Numbers) (fuel depth : ℕ) (text : Text)
      → 2 * length text + 2 ≤ fuel
      → Within (length text) (parse_members f fuel depth text)
  parse_members-Within f zero depth text h = absurd (omega arith)
  parse_members-Within f (suc fuel) depth text h =
      bind-Within (length (space text)) _ (quoted (space text)) _ (quoted-Within (space text))
        (λ key text1 read. expect-Within (length text) b':' (space text1) _ (λ e.
          let text2 = tail (space text1) in
          let used : length text2 + 1 < length text = omega (
            arith,
            length-space text,
            read,
            length-space text1,
            length-tail b':' (space text1) e,
          ) in
          bind-Within (length text2) _ (parse_value f fuel (depth + 1) text2) _
            (parse_value-Within f fuel (depth + 1) text2 (omega (arith, used)))
            (λ value text3 less.
              let after = space text3 in
              let shorter = length-space text3 in
              if-each (Within (length text)) (starts b',' after)
                (λ e.
                  bind-Within (length (tail after)) _ (parse_members f fuel depth (tail after)) _
                    (parse_members-Within f fuel depth (tail after)
                      (omega (arith, shorter, used, length-tail b',' after e)))
                    (λ fs rest fewer. omega (arith, shorter, used, length-tail b',' after e)))
                (λ e.
                  if-each (Within (length text)) (starts b'}' after)
                    (λ e. omega (arith, shorter, used, length-tail b'}' after e)) (λ e. tt)))))

  parse_items-Within :
      (f : Numbers) (fuel depth : ℕ) (text : Text)
      → 2 * length text + 2 ≤ fuel
      → Within (length text) (parse_items f fuel depth text)
  parse_items-Within f zero depth text h = absurd (omega arith)
  parse_items-Within f (suc fuel) depth text h =
      bind-Within (length text) _ (parse_value f fuel (depth + 1) text) _
        (parse_value-Within f fuel (depth + 1) text (omega arith))
        (λ value text1 less.
          let after = space text1 in
          let shorter = length-space text1 in
          if-each (Within (length text)) (starts b',' after)
            (λ e.
              bind-Within (length (tail after)) _ (parse_items f fuel depth (tail after)) _
                (parse_items-Within f fuel depth (tail after)
                  (omega (arith, shorter, length-tail b',' after e)))
                (λ xs rest fewer. omega (arith, shorter, length-tail b',' after e)))
            (λ e.
              if-each (Within (length text)) (starts b']' after)
                (λ e. omega (arith, shorter, length-tail b']' after e)) (λ e. tt)))

end_of_text-ends : (value : Json) (text : Text) → end_of_text value text ≢ out_of_fuel
unfolding end_of_text
end_of_text-ends value [] = λ e. cc
end_of_text-ends value (c ∷ text) = λ e. cc

bind-ends :
    (n : ℕ) (r : Outcome (Json × Text)) (k : Json × Text → Outcome Json)
    → Within n r
    → ((value : Json) (rest : Text) → k (value, rest) ≢ out_of_fuel)
    → bind r k ≢ out_of_fuel
bind-ends n (parsed (value, rest)) k h next = next value rest
bind-ends n failed k h next = λ e. cc
bind-ends n out_of_fuel k h next = absurd h

-- The parser ends on every text: the fuel that parse_json hands out, twice the text's length and one,
-- never runs out.
pub parse_json-ends : (f : Numbers) (text : Text) → parse_json f text ≢ out_of_fuel
unfolding parse_json
parse_json-ends f text =
    bind-ends (length text) (parse_value f (2 * length text + 1) 0 text) _
      (parse_value-Within f (2 * length text + 1) 0 text (omega arith))
      (λ value rest. end_of_text-ends value (space rest))
