-- ===== src/Bytes.antt =====
-- Byte slices and Go strings, both as lists of numbers below 256, and the two conversions of
-- encoding/binary that the program uses: `binary.LittleEndian.PutUint64` and `Uint64`.
pub mod Laws
use navi_kv.Prelude.{ℕ, zero, suc, ◌+◌, ◌-◌, ◌*◌, ◌/◌, ◌%◌, ◌<◌, Bool, true, false, ◌&&◌}
use navi_kv.Prelude.{List, [], ◌∷◌, leb, ◌==◌, if◌then◌else◌, length, take, drop}
use navi_kv.Prelude.{◌>>=◌, Outcome, ok, panic, u64_limit}

abbrev pub Bytes : Type 0
Bytes = List ℕ

abbrev pub IsByte : ℕ → Type 0
IsByte b = b < 256

abbrev pub IsU64 : ℕ → Type 0
IsU64 n = n < u64_limit

-- The `k` low bytes of `n`, lowest first.
unfoldable pub to_le : ℕ → ℕ → Bytes
to_le zero n = []
to_le (suc k) n = (n % 256) ∷ to_le k (n / 256)

unfoldable pub of_le : Bytes → ℕ
of_le [] = 0
of_le (b ∷ bs) = b + 256 * of_le bs

-- `binary.LittleEndian.PutUint64` into eight fresh bytes.
abbrev pub put_u64 : ℕ → Bytes
put_u64 = to_le 8

-- `b[lo:hi]`, of a slice with no spare capacity.
unfoldable pub slice : Bytes → ℕ → ℕ → Outcome Bytes
slice bs lo hi = if leb lo hi && leb hi (length bs) then ok (take (hi - lo) (drop lo bs)) else panic

-- `binary.LittleEndian.Uint64(b[lo:lo+8])`.
unfoldable pub get_u64 : Bytes → ℕ → Outcome ℕ
unfolding slice
get_u64 bs lo = do b ← slice bs lo (lo + 8); ok (of_le b)

-- Equality of strings.
unfoldable pub bytes_eq : Bytes → Bytes → Bool
bytes_eq [] [] = true
bytes_eq [] (b ∷ bs) = false
bytes_eq (a ∷ xs) [] = false
bytes_eq (a ∷ xs) (b ∷ bs) = a == b && bytes_eq xs bs
