-- ===== src/Chromecast/Protocol/Passwords/Checks.antt =====
-- What the checks on devices, passphrases and keys let through.
use phone.Prelude.Results.{Result, ok}
use phone.Prelude.{
  ℕ, ◌+◌, ◌≤◌, ◌<◌, ◌≡◌, ◌↔◌, ◌⊎◌, inl, inr, refl, Bool, true, false, not, ◌&&◌, ◌||◌, [], ◌∷◌,
  Option, none, some, length, All, filter, list_eq, ltb, leb, ◌==◌, if-each, &&-parts, arith,
}
use phone.Chromecast.Json.{Text, is_empty, is_space}
use phone.Chromecast.Protocol.{DeviceInfo}
use phone.Chromecast.Protocol.Wrapping.{wrap_pkcs1}
use phone.Chromecast.Protocol.Passwords.{
  all_of, is_hex, is_printable, valid_passphrase, lower, same_text, same_device, Crypto, or_key,
  encoded_as, encode_cipher, encrypt_under, encrypt_der, encrypt_password,
}

same_text_comm : (a b : Text) → same_text a b ≡ same_text b a
unfolding same_text
same_text_comm [] [] = refl
same_text_comm [] (y ∷ b) = refl
same_text_comm (x ∷ a) [] = refl
same_text_comm (x ∷ a) (y ∷ b) =
    let swap : (lower x == lower y) ≡ (lower y == lower x) = ground arith in
    rw (swap, same_text_comm a b) refl

list_eq_comm : (a b : Text) → list_eq a b ≡ list_eq b a
list_eq_comm [] [] = refl
list_eq_comm [] (y ∷ b) = refl
list_eq_comm (x ∷ a) [] = refl
list_eq_comm (x ∷ a) (y ∷ b) =
    let swap : (x == y) ≡ (y == x) = ground arith in rw (swap, list_eq_comm a b) refl

same_key_comm : (a b : Text) → (not (is_empty a) && list_eq a b) ≡ (not (is_empty b) && list_eq b a)
unfolding is_empty
same_key_comm [] [] = refl
same_key_comm [] (y ∷ b) = refl
same_key_comm (x ∷ a) [] = refl
same_key_comm (x ∷ a) (y ∷ b) = list_eq_comm (x ∷ a) (y ∷ b)

and_comm : (a b : Bool) → (a && b) ≡ (b && a)
and_comm true true = refl
and_comm true false = refl
and_comm false true = refl
and_comm false false = refl

-- Whether two devices are the same does not depend on which is named first.
pub same_device_comm : (a b : DeviceInfo) → same_device a b ≡ same_device b a
unfolding same_device
same_device_comm a b =
    rw
      (
        and_comm (not (is_empty a.mac)) (not (is_empty b.mac)),
        and_comm (not (is_empty a.udn)) (not (is_empty b.udn)),
        same_text_comm a.mac b.mac,
        same_text_comm a.udn b.udn,
        same_key_comm a.public_key b.public_key,
      )
      refl

-- A character of printable ASCII.
abbrev pub Printable : ℕ → Type 0
Printable c = (32 ≤ c) × (c < 127)

-- A hexadecimal digit, of either case.
abbrev pub HexDigit : ℕ → Type 0
HexDigit c = ((b'0' ≤ c) × (c ≤ b'9')) ⊎ (((b'a' ≤ c) × (c ≤ b'f')) ⊎ ((b'A' ≤ c) × (c ≤ b'F')))

-- What a WPA network takes for its password: a key of 64 hexadecimal digits, or a passphrase.
abbrev pub IsPassphrase : Text → Type 0
IsPassphrase p =
    ((length p ≡ 64) × All HexDigit p) ⊎ ((8 ≤ length p) × (length p ≤ 63) × All Printable p)

all_of-All :
    (test : ℕ → Bool) (P : ℕ → Type 0) (p : Text)
    → ((c : ℕ) → (test c ≡ true) ↔ P c)
    → (all_of test p ≡ true) ↔ All P p
unfolding all_of
all_of-All test P [] f = ((λ _. tt), (λ _. refl))
all_of-All test P (c ∷ p) f = (
  (λ h.
      let parts = &&-parts (test c) (all_of test p) h in
      ((f c).0 parts.0, (all_of-All test P p f).0 parts.1)),
  (λ h. rw ((f c).1 h.0, (all_of-All test P p f).1 h.1) refl),
)

is_hex-HexDigit : (c : ℕ) → (is_hex c ≡ true) ↔ HexDigit c
unfolding is_hex
is_hex-HexDigit c = ((λ h. ground arith), (λ h. ground arith))

is_printable-Printable : (c : ℕ) → (is_printable c ≡ true) ↔ Printable c
unfolding is_printable
is_printable-Printable c = ((λ h. (ground arith, ground arith)), (λ h. ground arith))

-- The passwords that are accepted are exactly the keys of 64 hexadecimal digits and the passphrases
-- of 8 to 63 characters of printable ASCII.
pub valid_passphrase-IsPassphrase : (p : Text) → (valid_passphrase p ≡ true) ↔ IsPassphrase p
unfolding valid_passphrase
valid_passphrase-IsPassphrase p =
    let hex = all_of-All is_hex HexDigit p is_hex-HexDigit in
    let text = all_of-All is_printable Printable p is_printable-Printable in
    if-each (λ b. (b ≡ true) ↔ IsPassphrase p) (length p == 64)
      (λ e. (
        (λ h. inl (ground arith, hex.0 h)),
        (λ h. elim h [ inl key ↦ hex.1 key.1 | inr phrase ↦ absurd (ground arith) ]),
      ))
      (λ e. (
        (λ h.
            let outer =
              &&-parts (leb 8 (length p) && leb (length p) 63) (all_of is_printable p) h in
            let low : 8 ≤ length p = ground arith in
            let high : length p ≤ 63 = ground arith in inr (low, high, text.0 outer.1)),
        (λ h. elim h [
          | inl key ↦ absurd (ground arith)
          | inr phrase ↦ ground (arith, text.1 phrase.2)
        ]),
      ))

-- The password fits the key, and its ciphertext is encoded as `t`.
abbrev UnderKey {ℓ} : {Key : Type ℓ} → Crypto Key → Text → Text → Key → Type 0
UnderKey c t password key =
    (128 ≤ c.rsa_length key)
    × (length password + 11 ≤ c.rsa_length key)
    × ((cipher : Text) × (c.pkcs1_encrypt key password ≡ some cipher)
        × (c.base64_encode cipher ≡ some t))

-- The bytes that the device's text decodes to are a key, as they are or wrapped.
abbrev pub FromDer {ℓ} : {Key : Type ℓ} → Crypto Key → Text → Text → Text → Type ℓ
FromDer {Key = Key} c t password der =
    (key : Key) × (or_key (c.parse_key der) (c.parse_key (wrap_pkcs1 der)) ≡ some key)
    × UnderKey c t password key

module _ {ℓ} {Key : Type ℓ} (c : Crypto Key) (t : Text) where
  encoded_as-ok : (o : Option Text) → encoded_as o ≡ ok t → o ≡ some t
  unfolding encoded_as
  encoded_as-ok none h = absurd cc
  encoded_as-ok (some u) h = cc

  encode_cipher-ok :
      (o : Option Text)
      → encode_cipher c o ≡ ok t
      → (cipher : Text) × (o ≡ some cipher) × (c.base64_encode cipher ≡ some t)
  unfolding encode_cipher
  encode_cipher-ok none h = absurd cc
  encode_cipher-ok (some cipher) h = (cipher, refl, encoded_as-ok (c.base64_encode cipher) h)

  encrypt_key-ok :
      (key : Key) (password : Text)
      → encrypt_under c (some key) password ≡ ok t
      → UnderKey c t password key
  unfolding encrypt_under
  encrypt_key-ok key password =
      let size = c.rsa_length key in
      let P : Result Text → Type 0 = λ r. r ≡ ok t → UnderKey c t password key in
      if-each P (ltb size 128 || ltb size (length password + 11)) (λ _ h. absurd cc)
        (λ fits.
          if-each P (not c.seeded) (λ _ h. absurd cc)
            (λ _ h.
              (ground arith, ground arith, encode_cipher-ok (c.pkcs1_encrypt key password) h)))

  encrypt_under-ok :
      (o : Option Key) (password : Text)
      → encrypt_under c o password ≡ ok t
      → (key : Key) × (o ≡ some key) × UnderKey c t password key
  encrypt_under-ok none password h = unfold encrypt_under in absurd cc
  encrypt_under-ok (some key) password h = (key, refl, encrypt_key-ok key password h)

  encrypt_der-ok :
      (o : Option Text) (password : Text)
      → encrypt_der c o password ≡ ok t
      → (der : Text) × (o ≡ some der) × FromDer c t password der
  unfolding encrypt_der
  encrypt_der-ok none password h = absurd cc
  encrypt_der-ok (some der) password h =
      let found = or_key (c.parse_key der) (c.parse_key (wrap_pkcs1 der)) in
      (
        der,
        refl,
        if-each (λ r. r ≡ ok t → FromDer c t password der) (not c.allocated) (λ _ h'. absurd cc)
            (λ _ h'. encrypt_under-ok found password h') h,
      )

-- A password is encrypted only under an RSA key that the device's text, as it is or wrapped, decodes
-- to, of at least 128 bytes and 11 more than the password; the result is the encoded ciphertext.
pub encrypt_password-ok {ℓ} :
    {Key : Type ℓ} (c : Crypto Key) (public_key password t : Text)
    → encrypt_password c public_key password ≡ ok t
    → (der : Text) × (c.base64_decode (filter (λ b. not (is_space b)) public_key) ≡ some der)
      × FromDer c t password der
unfolding encrypt_password
encrypt_password-ok c public_key password t =
    let compact = filter (λ b. not (is_space b)) public_key in
    if-each
      (λ r.
        r ≡ ok t → (der : Text) × (c.base64_decode compact ≡ some der) × FromDer c t password der)
      (is_empty compact) (λ _ h. absurd cc)
      (λ _. encrypt_der-ok c t (c.base64_decode compact) password)
