-- ===== src/Prelude/Results.antt =====
-- `common::Result<T>` of common/result.h: a value, or an error with its message.
use Prim.Native.String.{String}

pub data Result {ℓ} (A : Type ℓ) : Type ℓ where
  ok : A → Result A
  error : String → Result A
