-- ===== src/Types/Encoding/Words.antt =====
-- `to_le_bytes`, `from_le_bytes` and the bytes of a hash.
use entangrid.Prelude.{ℕ, zero, suc, ◌+◌, ◌*◌, ◌/◌, ◌%◌, [], ◌∷◌, take, reverse}
use entangrid.Types.Scheme.{Bytes}
use entangrid.Types.Records.{HashBytes}

-- The `width` bytes of a number, from the least significant one.
unfoldable pub le_bytes : ℕ → ℕ → Bytes
le_bytes zero n = []
le_bytes (suc width) n = n % 256 ∷ le_bytes width (n / 256)

unfoldable pub from_le_bytes : Bytes → ℕ
from_le_bytes [] = 0
from_le_bytes (b ∷ bs) = b + 256 * from_le_bytes bs

-- The 32 bytes of a hash, from the most significant one.
unfoldable pub hash_bytes : HashBytes → Bytes
unfolding le_bytes
hash_bytes hash = reverse (le_bytes 32 hash)

-- `u64::from_le_bytes` of the first eight bytes of a hash.
unfoldable pub leading_u64 : HashBytes → ℕ
unfolding hash_bytes from_le_bytes
leading_u64 hash = from_le_bytes (take 8 (hash_bytes hash))
