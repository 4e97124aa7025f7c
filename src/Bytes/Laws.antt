-- ===== src/Bytes/Laws.antt =====
-- The conversions of `Bytes` invert one another, and slices of concatenations.
use navi_kv.Prelude.{take_front, drop_front}
use navi_kv.Prelude.{ℕ, zero, suc, ◌+◌, ◌-◌, ◌/◌, ◌^◌, ◌<◌, ◌≡◌, refl, ap, arith}
use navi_kv.Prelude.{true, ◌↔◌, [], ◌∷◌, ◌++◌, length, take, drop, All}
use navi_kv.Prelude.{length-append, ok}
use navi_kv.Bytes.{Bytes, IsByte, IsU64, to_le, of_le, put_u64, slice, get_u64, bytes_eq}

pub length-to_le : (k n : ℕ) → length (to_le k n) ≡ k
unfolding to_le
length-to_le zero n = refl
length-to_le (suc k) n = ap suc (length-to_le k (n / 256))

pub to_le-IsByte : (k n : ℕ) → All IsByte (to_le k n)
unfolding to_le
to_le-IsByte zero n = tt
to_le-IsByte (suc k) n = (omega arith, to_le-IsByte k (n / 256))

of_le-to_le : (k n : ℕ) → n < 256 ^ k → of_le (to_le k n) ≡ n
unfolding to_le of_le
of_le-to_le zero n h = omega arith
of_le-to_le (suc k) n h = omega (arith, of_le-to_le k (n / 256) (omega arith))

pub of_le-put_u64 : (n : ℕ) → IsU64 n → of_le (put_u64 n) ≡ n
of_le-put_u64 n h = of_le-to_le 8 n h

-- The slice of a concatenation that is its middle part.
pub slice_middle :
    (front mid back : Bytes) (lo hi : ℕ)
    → lo ≡ length front
    → hi ≡ length front + length mid
    → slice (front ++ (mid ++ back)) lo hi ≡ ok mid
unfolding slice
slice_middle front mid back lo hi p q =
    let e : drop lo (front ++ (mid ++ back)) ≡ mid ++ back =
      drop_front lo front (mid ++ back) (omega arith) in
    let t : take (hi - lo) (mid ++ back) ≡ mid = take_front (hi - lo) mid back (omega arith) in
    let n : length (front ++ (mid ++ back)) ≡ length front + (length mid + length back) =
      omega (arith, length-append front (mid ++ back), length-append mid back) in
    ground (arith, e, t, n)

-- A number reads back where it was put.
pub get_u64_middle :
    (front back : Bytes) (lo n : ℕ)
    → lo ≡ length front
    → IsU64 n
    → get_u64 (front ++ (put_u64 n ++ back)) lo ≡ ok n
unfolding get_u64
get_u64_middle front back lo n p h =
    rw (slice_middle front (put_u64 n) back lo (lo + 8) p (omega (arith, length-to_le 8 n)))
      (ap ok (of_le-put_u64 n h))

pub bytes_eq_iff : (a b : Bytes) → (bytes_eq a b ≡ true) ↔ (a ≡ b)
unfolding bytes_eq
bytes_eq_iff [] [] = (λ h. refl, λ h. refl)
bytes_eq_iff [] (b ∷ bs) = (λ h. cc, λ h. cc)
bytes_eq_iff (a ∷ xs) [] = (λ h. cc, λ h. cc)
bytes_eq_iff (a ∷ xs) (b ∷ bs) =
    (λ h. ground (arith, (bytes_eq_iff xs bs).0), λ h. ground (arith, (bytes_eq_iff xs bs).1))

pub bytes_eq_refl : (a : Bytes) → bytes_eq a a ≡ true
bytes_eq_refl a = (bytes_eq_iff a a).1 refl
