-- ===== src/Chromecast/Protocol/Wrapping.antt =====
-- chromecast/protocol.cc: the DER wrapper of a PKCS#1 key.
pub mod Unwrapping
use phone.Prelude.{
  ℕ, zero, suc, ◌+◌, ◌/◌, ◌%◌, Bool, List, [], ◌∷◌, ◌++◌, length, ltb, ◌==◌, if◌then◌else◌, bit_or,
}
use phone.Chromecast.Json.{Text}

-- The loop of der_length: the bytes of a size, the highest first; a size_t has eight.
unfoldable pub size_bytes : ℕ → ℕ → Text → Text
size_bytes zero size bytes = bytes
size_bytes (suc n) size bytes =
    let rest = size_bytes n (size / 256) (size % 256 ∷ bytes) in if size == 0 then bytes else rest

unfoldable pub der_length : ℕ → Text
der_length size =
    let bytes = size_bytes 8 size [] in
    if ltb size 0x80 then size ∷ [] else bit_or 0x80 (length bytes) ∷ bytes

-- The AlgorithmIdentifier rsaEncryption.
unfoldable pub algorithm : Text
algorithm =
    0x30 ∷ 0x0d ∷ 0x06 ∷ 0x09 ∷ 0x2a ∷ 0x86 ∷ 0x48 ∷ 0x86 ∷ 0xf7 ∷ 0x0d ∷ 0x01 ∷ 0x01 ∷ 0x01 ∷ 0x05
    ∷ 0x00 ∷ []

unfoldable pub wrap_pkcs1 : Text → Text
wrap_pkcs1 key =
    let bits = 0x03 ∷ (der_length (length key + 1) ++ (0 ∷ key)) in
    let inner = algorithm ++ bits in 0x30 ∷ (der_length (length inner) ++ inner)
