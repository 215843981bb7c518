-- ===== src/Hash.antt =====
-- `hash2` of common/util.c, over the bytes of the buffer.
pub mod Detect
mod Tests
use rastapopoulos.Base.{List, [], ℕ, ◌*◌, ◌+◌, ◌-◌, ◌^◌, ◌∷◌}
use rastapopoulos.Base.Words.{u32}

-- One round, in `unsigned`: `*ptr + (hash << 6) + (hash << 16) - hash`.
unfoldable pub hash_step : ℕ → ℕ → ℕ
hash_step h byte = u32 (u32 (byte + u32 (h * 2 ^ 6) + u32 (h * 2 ^ 16)) + 2 ^ 32 - h)

unfoldable pub hash2 : List ℕ → ℕ → ℕ
hash2 [] h = h
hash2 (byte ∷ bytes) h = hash2 bytes (hash_step h byte)

pub hash : List ℕ → ℕ
hash bytes = hash2 bytes 0
