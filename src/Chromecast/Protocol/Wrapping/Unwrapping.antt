-- ===== src/Chromecast/Protocol/Wrapping/Unwrapping.antt =====
-- A reader of the DER wrapper, written from the encoding's definition, and what it finds in wrap_pkcs1.
use phone.Prelude.{
  ℕ, zero, suc, ◌+◌, ◌-◌, ◌*◌, ◌/◌, ◌%◌, ◌^◌, ◌≤◌, ◌<◌, ◌≡◌, refl, sym, ap, ◌∙◌, true, false, ◌&&◌,
  [], ◌∷◌, ◌++◌, Option, none, some, length, length-append, ltb, ◌==◌, if◌then◌else◌, if-each,
  ◌>>=◌, require, bit_or, arith, ==→≡,
}
use native.Mathlib.Nat.{pow-succ'}
use phone.Chromecast.Json.{Text, literal}
use phone.Chromecast.Protocol.Wrapping.{size_bytes, der_length, algorithm, wrap_pkcs1}

-- The number that bytes write after `v`, the highest first.
abbrev big_endian : ℕ → Text → ℕ
big_endian v [] = v
big_endian v (b ∷ bytes) = big_endian (v * 256 + b) bytes

unfoldable pub read_number : ℕ → ℕ → Text → Option (ℕ × Text)
read_number zero v text = some (v, text)
read_number (suc n) v [] = none
read_number (suc n) v (b ∷ text) = read_number n (v * 256 + b) text

-- A length of DER: one byte below 0x80, or 0x80 more than the number of bytes that write it.
unfoldable pub read_length : Text → Option (ℕ × Text)
read_length [] = none
read_length (b ∷ text) = if ltb b 0x80 then some (b, text) else read_number (b - 0x80) 0 text

-- The contents of an element that fills the text.
unfoldable pub read_element : ℕ → Text → Option Text
read_element tag [] = none
read_element tag (t ∷ text) = do
  (n, contents) ← read_length text
  _ ← require (t == tag && length contents == n)
  some contents

-- The bytes of a BIT STRING of whole bytes.
unfoldable pub whole_bytes : Text → Option Text
whole_bytes [] = none
whole_bytes (unused ∷ bytes) = do _ ← require (unused == 0); some bytes

abbrev pub unwrap : Text → Option Text
unwrap text = do
  inner ← read_element 0x30 text
  bits ← literal algorithm inner
  whole ← read_element 0x03 bits
  whole_bytes whole

big_endian-size_bytes :
    (n size : ℕ) (bytes : Text)
    → size < 256 ^ n
    → big_endian 0 (size_bytes n size bytes) ≡ big_endian size bytes
unfolding size_bytes
big_endian-size_bytes zero size bytes h = let e : size ≡ 0 = omega arith in rw e refl
big_endian-size_bytes (suc n) size bytes h =
    if-each (λ t. big_endian 0 t ≡ big_endian size bytes) (size == 0)
      (λ e. ap (λ v. big_endian v bytes) (sym (==→≡ size 0 e)))
      (λ _.
        let power : 256 ^ suc n ≡ 256 * 256 ^ n = pow-succ' 256 n in
        big_endian-size_bytes n (size / 256) (size % 256 ∷ bytes) (omega (arith, power))
        ∙ ap (λ v. big_endian v bytes) (omega arith))

length-size_bytes :
    (n size : ℕ) (bytes : Text) → length (size_bytes n size bytes) ≤ n + length bytes
unfolding size_bytes
length-size_bytes zero size bytes = omega arith
length-size_bytes (suc n) size bytes =
    let later : length (size_bytes n (size / 256) (size % 256 ∷ bytes)) ≤ suc n + length bytes =
      omega (arith, length-size_bytes n (size / 256) (size % 256 ∷ bytes)) in
    let here : length bytes ≤ suc n + length bytes = omega arith in
    if-each (λ (t : Text). length t ≤ suc n + length bytes) (size == 0) (λ _. here) (λ _. later)

read_number-append :
    (bytes rest : Text) (v : ℕ)
    → read_number (length bytes) v (bytes ++ rest) ≡ some (big_endian v bytes, rest)
unfolding read_number
read_number-append [] rest v = refl
read_number-append (b ∷ bytes) rest v = read_number-append bytes rest (v * 256 + b)

bit_or_count : (n : ℕ) → n ≤ 8 → bit_or 0x80 n ≡ 0x80 + n
bit_or_count zero h = refl
bit_or_count (suc zero) h = refl
bit_or_count (suc (suc zero)) h = refl
bit_or_count (suc (suc (suc zero))) h = refl
bit_or_count (suc (suc (suc (suc zero)))) h = refl
bit_or_count (suc (suc (suc (suc (suc zero))))) h = refl
bit_or_count (suc (suc (suc (suc (suc (suc zero)))))) h = refl
bit_or_count (suc (suc (suc (suc (suc (suc (suc zero))))))) h = refl
bit_or_count (suc (suc (suc (suc (suc (suc (suc (suc zero)))))))) h = refl
bit_or_count (suc (suc (suc (suc (suc (suc (suc (suc (suc n))))))))) h = absurd (omega arith)

read_length-der_length :
    (size : ℕ) (rest : Text)
    → size < 2 ^ 64
    → read_length (der_length size ++ rest) ≡ some (size, rest)
unfolding read_length der_length
read_length-der_length size rest h =
    let bytes = size_bytes 8 size [] in
    let count : length bytes ≤ 8 = omega (arith, length-size_bytes 8 size []) in
    let marked : bit_or 0x80 (length bytes) ≡ 0x80 + length bytes =
      bit_or_count (length bytes) count in
    let long : ltb (0x80 + length bytes) 0x80 ≡ false = ground arith in
    let counted : 0x80 + length bytes - 0x80 ≡ length bytes = omega arith in
    let value : big_endian 0 bytes ≡ size = big_endian-size_bytes 8 size [] h in
    if-each (λ t. read_length (t ++ rest) ≡ some (size, rest)) (ltb size 0x80)
      (λ short. unfold read_length in rw short refl)
      (λ _.
        rw (marked, long, counted)
          (read_number-append bytes rest 0 ∙ ap (λ v. some (v, rest)) value))

read_element-wrap :
    (tag : ℕ) (contents : Text)
    → length contents < 2 ^ 64
    → read_element tag (tag ∷ (der_length (length contents) ++ contents)) ≡ some contents
unfolding read_element
read_element-wrap tag contents h =
    let tagged : (tag == tag) ≡ true = ground arith in
    let whole : (length contents == length contents) ≡ true = ground arith in
    rw (read_length-der_length (length contents) contents h, tagged, whole) refl

length-der_length : (size : ℕ) → length (der_length size) ≤ 9
unfolding der_length
length-der_length size =
    let count : length (size_bytes 8 size []) ≤ 8 = omega (arith, length-size_bytes 8 size []) in
    let one : 1 ≤ 9 = omega arith in
    let many : suc (length (size_bytes 8 size [])) ≤ 9 = omega arith in
    if-each (λ (t : Text). length t ≤ 9) (ltb size 0x80) (λ _. one) (λ _. many)

literal-algorithm : (bits : Text) → literal algorithm (algorithm ++ bits) ≡ some bits
unfolding literal algorithm
literal-algorithm bits = refl

-- A key of a length that a size_t holds, with the 64 bytes that the wrapper may add, is what a reader
-- of DER finds in the wrapped key: the contents of the BIT STRING behind the algorithm's name.
pub unwrap-wrap_pkcs1 : (key : Text) → length key + 64 < 2 ^ 64 → unwrap (wrap_pkcs1 key) ≡ some key
unfolding wrap_pkcs1 whole_bytes
unwrap-wrap_pkcs1 key h =
    let whole : Text = 0 ∷ key in
    let lengths : Text = der_length (length whole) ++ whole in
    let bits : Text = 0x03 ∷ lengths in
    let counted : length key + 1 ≡ length whole = omega arith in
    let size : length (algorithm ++ bits) < 2 ^ 64 =
      unfold algorithm in
      omega (
        arith,
        length-append (der_length (length whole)) whole,
        length-der_length (length whole),
      ) in
    rw
      (
        counted,
        read_element-wrap 0x30 (algorithm ++ bits) size,
        literal-algorithm bits,
        read_element-wrap 0x03 whole (omega arith),
      )
      refl
