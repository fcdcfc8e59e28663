-- ===== src/Chromecast/Json/Parser/Quoting.antt =====
-- What quote writes, the parser reads back.
use phone.Prelude.{
  ℕ, zero, suc, ◌/◌, ◌%◌, ◌≤◌, ◌<◌, ◌≡◌, refl, sym, ap, ◌∙◌, true, false, [], ◌∷◌, ◌++◌, some,
  length, length-append, ltb, leb, ◌==◌, if-each, arith, ==→≡,
}
use mathlib.Core.List.{append_assoc, append-nil}
use phone.Chromecast.Json.{
  Text, parsed, hex_digit, hex_from, hex4, is_high, is_low, unicode, utf8, more, piece_of, escape,
  character, add_piece, string_loop, starts, quoted,
}
use phone.Chromecast.Json.Parser.{hex_char, quote_char, quote_chars, quote}

hex_digit-hex_char : (d : ℕ) → d < 16 → hex_digit (hex_char d) ≡ some d
unfolding hex_digit hex_char
hex_digit-hex_char d h = ground arith

hex4_small :
    (c : ℕ) (text : Text)
    → c < 0x20
    → hex4 (b'0' ∷ b'0' ∷ hex_char (c / 16) ∷ hex_char (c % 16) ∷ text) ≡ some (c, text)
unfolding hex4 hex_from
hex4_small c text h =
    let high : hex_digit (hex_char (c / 16)) ≡ some (c / 16) =
      hex_digit-hex_char (c / 16) (omega arith) in
    let low : hex_digit (hex_char (c % 16)) ≡ some (c % 16) =
      hex_digit-hex_char (c % 16) (omega arith) in
    let zero_digit : hex_digit b'0' ≡ some 0 = unfold hex_digit in refl in
    let enough : leb 4 (suc (suc (suc (suc (length text))))) ≡ true = ground arith in
    rw (enough, zero_digit, high, low) (ap (λ (n : ℕ). some (n, text)) (omega arith))

unicode_small :
    (c : ℕ) (text : Text)
    → c < 0x20
    → unicode (b'0' ∷ b'0' ∷ hex_char (c / 16) ∷ hex_char (c % 16) ∷ text) ≡ some (c, text)
unfolding unicode is_high is_low
unicode_small c text h =
    let not_high : leb 0xd800 c ≡ false = ground arith in
    let not_low : leb 0xdc00 c ≡ false = ground arith in
    rw (hex4_small c text h, not_high, not_low) refl

piece_of_small : (c : ℕ) (text : Text) → c < 0x20 → piece_of (some (c, text)) ≡ more (c ∷ []) text
unfolding piece_of utf8
piece_of_small c text h = let ascii : ltb c 0x80 ≡ true = ground arith in rw ascii refl

character-quote_char : (c : ℕ) (text : Text) → character (quote_char c ++ text) ≡ more (c ∷ []) text
unfolding character quote_char escape
character-quote_char c text =
    let Q : Text → Type 0 = λ t. character (t ++ text) ≡ more (c ∷ []) text in
    if-each Q (c == b'"') (λ e. same c b'"' e)
      (λ quote.
        if-each Q (c == b'\\') (λ e. same c b'\\' e)
          (λ backslash.
            if-each Q (c == 10) (λ e. same c 10 e)
              (λ newline.
                if-each Q (c == 13) (λ e. same c 13 e)
                  (λ carriage.
                    if-each Q (c == 9) (λ e. same c 9 e)
                      (λ tab.
                        if-each Q (ltb c 0x20)
                          (λ low.
                            rw (unicode_small c text (ground arith))
                              (piece_of_small c text (ground arith)))
                          (λ high. rw (quote, high, backslash) refl))))))
  where
    same : (a b : ℕ) → (a == b) ≡ true → more (b ∷ []) text ≡ more (a ∷ []) text
    same a b e = ap (λ (n : ℕ). more (n ∷ []) text) (sym (==→≡ a b e))

string_loop-quote_chars :
    (s rest out : Text) (fuel : ℕ)
    → length s < fuel
    → string_loop fuel (quote_chars s ++ (b'"' ∷ rest)) out ≡ parsed (out ++ s, rest)
unfolding string_loop quote_chars add_piece
string_loop-quote_chars s rest out zero h = absurd (omega arith)
string_loop-quote_chars [] rest out (suc fuel) h =
    unfold character in ap (λ (t : Text). parsed (t, rest)) (sym (append-nil out))
string_loop-quote_chars (c ∷ s) rest out (suc fuel) h =
    rw
      (
        append_assoc (quote_char c) (quote_chars s) (b'"' ∷ rest),
        character-quote_char c (quote_chars s ++ (b'"' ∷ rest)),
      )
      (string_loop-quote_chars s rest (out ++ (c ∷ [])) fuel (omega arith)
        ∙ ap (λ (t : Text). parsed (t, rest)) (append_assoc out (c ∷ []) s))

length-quote_char : (c : ℕ) → 0 < length (quote_char c)
unfolding quote_char
length-quote_char c =
    let P : Text → Type 0 = λ t. 0 < length t in
    if-each P (c == b'"') (λ e. omega arith)
      (λ e.
        if-each P (c == b'\\') (λ e. omega arith)
          (λ e.
            if-each P (c == 10) (λ e. omega arith)
              (λ e.
                if-each P (c == 13) (λ e. omega arith)
                  (λ e.
                    if-each P (c == 9) (λ e. omega arith)
                      (λ e. if-each P (ltb c 0x20) (λ e. omega arith) (λ e. omega arith))))))

length-quote_chars : (s : Text) → length s ≤ length (quote_chars s)
unfolding quote_chars
length-quote_chars [] = omega arith
length-quote_chars (c ∷ s) =
    omega (
      arith,
      length-append (quote_char c) (quote_chars s),
      length-quote_char c,
      length-quote_chars s,
    )

-- For every text, the parser's string reads back what quote writes for it, and leaves what follows.
pub quoted-quote : (s rest : Text) → quoted (quote s ++ rest) ≡ parsed (s, rest)
unfolding quoted quote starts
quoted-quote s rest =
    let regroup : (quote_chars s ++ (b'"' ∷ [])) ++ rest ≡ quote_chars s ++ (b'"' ∷ rest) =
      append_assoc (quote_chars s) (b'"' ∷ []) rest in
    rw regroup (
      string_loop-quote_chars s rest [] (suc (length (quote_chars s ++ (b'"' ∷ rest))))
        (omega (arith, length-quote_chars s, length-append (quote_chars s) (b'"' ∷ rest))))
