-- ===== src/Chromecast/Protocol/Passwords.antt =====
-- chromecast/protocol.cc: supported networks, passphrases, and the encrypted password.
pub mod Checks
use Prim.Native.String.{String}
use phone.Prelude.Integers.{ℤ, pos, negsuc, same_int}
use phone.Prelude.Texts.{bytes_of}
use phone.Prelude.Results.{Result, ok, error}
use phone.Prelude.{
  ℕ, zero, suc, ◌+◌, ◌-◌, Bool, true, false, not, ◌&&◌, ◌||◌, List, [], ◌∷◌, ◌++◌, Option, none,
  some, length, list_eq, filter, ltb, leb, ◌==◌, if◌then◌else◌,
}
use phone.Chromecast.Json.{Text, is_empty, is_space}
use phone.Chromecast.Protocol.{DeviceInfo, WifiNetwork}
use phone.Chromecast.Protocol.Wrapping.{wrap_pkcs1}

unfoldable pub one_of : ℤ → List ℕ → Bool
one_of n [] = false
one_of n (m ∷ ms) = same_int n (pos m) || one_of n ms

unfoldable pub supported : WifiNetwork → Bool
supported n = one_of n.auth (1 ∷ 5 ∷ 7 ∷ 9 ∷ []) && one_of n.cipher (1 ∷ 3 ∷ 4 ∷ 5 ∷ [])

unfoldable pub needs_password : WifiNetwork → Bool
needs_password n = not (same_int n.auth (pos 1))

unfoldable pub all_of : (ℕ → Bool) → Text → Bool
all_of test [] = true
all_of test (c ∷ t) = test c && all_of test t

unfoldable pub is_hex : ℕ → Bool
is_hex c = leb b'0' c && leb c b'9' || leb b'a' c && leb c b'f' || leb b'A' c && leb c b'F'

unfoldable pub is_printable : ℕ → Bool
is_printable c = leb 32 c && ltb c 127

unfoldable pub valid_passphrase : Text → Bool
valid_passphrase p =
    if length p == 64
    then all_of is_hex p
    else leb 8 (length p) && leb (length p) 63 && all_of is_printable p

unfoldable pub lower : ℕ → ℕ
lower c = if leb b'A' c && leb c b'Z' then c - b'A' + b'a' else c

unfoldable pub same_text : Text → Text → Bool
same_text [] [] = true
same_text (x ∷ a) (y ∷ b) = lower x == lower y && same_text a b
same_text _ _ = false

unfoldable pub same_device : DeviceInfo → DeviceInfo → Bool
same_device a b =
    if not (is_empty a.mac) && not (is_empty b.mac)
    then same_text a.mac b.mac
    else if not (is_empty a.udn) && not (is_empty b.udn)
    then same_text a.udn b.udn
    else not (is_empty a.public_key) && list_eq a.public_key b.public_key

-- The functions of mbedtls, and the allocation of their state, as encrypt_password uses them:
-- `parse_key` is none unless the key is an RSA key.
pub record Crypto {ℓ} (Key : Type ℓ) : Type ℓ where
  pub base64_decode : Text → Option Text
  pub allocated : Bool
  pub parse_key : Text → Option Key
  pub rsa_length : Key → ℕ
  pub seeded : Bool
  pub pkcs1_encrypt : Key → Text → Option Text
  pub base64_encode : Text → Option Text

unfoldable pub or_key {ℓ} : {Key : Type ℓ} → Option Key → Option Key → Option Key
or_key (some key) other = some key
or_key none other = other

unfoldable pub encoded_as : Option Text → Result Text
encoded_as none = error "Cannot encode the encrypted password"
encoded_as (some encoded) = ok encoded

unfoldable pub encode_cipher {ℓ} : {Key : Type ℓ} → Crypto Key → Option Text → Result Text
encode_cipher c none = error "Cannot encrypt the password"
encode_cipher c (some cipher) = encoded_as (c.base64_encode cipher)

unfoldable pub encrypt_under {ℓ} : {Key : Type ℓ} → Crypto Key → Option Key → Text → Result Text
encrypt_under c none password = error "The Chromecast's public key is not an RSA key"
encrypt_under c (some key) password =
    if ltb (c.rsa_length key) 128 || ltb (c.rsa_length key) (length password + 11)
    then error "The Chromecast's public key cannot encrypt this password"
    else if not c.seeded
    then error "Cannot seed the random generator"
    else encode_cipher c (c.pkcs1_encrypt key password)

unfoldable pub encrypt_der {ℓ} : {Key : Type ℓ} → Crypto Key → Option Text → Text → Result Text
encrypt_der c none password = error "The Chromecast's public key is not valid base64"
encrypt_der c (some der) password =
    if not c.allocated
    then error "Cannot allocate the encryption state"
    else encrypt_under c (or_key (c.parse_key der) (c.parse_key (wrap_pkcs1 der))) password

unfoldable pub encrypt_password {ℓ} : {Key : Type ℓ} → Crypto Key → Text → Text → Result Text
encrypt_password c public_key password =
    let compact = filter (λ b. not (is_space b)) public_key in
    if is_empty compact
    then error "The Chromecast did not send its public key"
    else encrypt_der c (c.base64_decode compact) password
