-- ===== src/Text/Ranges.antt =====
-- The ranges of the numbers that are parsed.
use navi_kv.Prelude.{
  ℕ, zero, suc, ◌+◌, ◌-◌, ◌*◌, ◌^◌, ◌<◌, arith, ◌&&◌, none, some, Option, [], ◌∷◌, ltb, ◌==◌, inl,
  inr, Bool-cases, u64_limit,
}
use navi_kv.Prelude.Int.{ℤ, pos, negsuc}
use navi_kv.Bytes.{Bytes, IsU64}
use navi_kv.Text.{is_digit, parse_digits, parse_uint, atoi, positive, negative}

-- In the range of an int64.
abbrev pub IsInt64 : ℤ → Type 0
IsInt64 (pos n) = n < 2 ^ 63
IsInt64 (negsuc n) = n < 2 ^ 63

abbrev pub Holds {ℓ κ} : {A : Type ℓ} → (A → Type κ) → Option A → Type κ
Holds P none = Unit
Holds P (some a) = P a

parse_digits-IsU64 : (s : Bytes) (n : ℕ) → IsU64 n → Holds IsU64 (parse_digits s n)
unfolding parse_digits
parse_digits-IsU64 [] n h = h
parse_digits-IsU64 (c ∷ s) n h =
    elim (Bool-cases (is_digit c && ltb (n * 10 + (c - b'0')) u64_limit)) [
      | inl e ↦ rw e (parse_digits-IsU64 s (n * 10 + (c - b'0')) (ground (arith, e)))
      | inr e ↦ rw e tt
    ]

pub parse_uint-IsU64 : (s : Bytes) → Holds IsU64 (parse_uint s)
unfolding parse_uint
parse_uint-IsU64 [] = tt
parse_uint-IsU64 (c ∷ s) = parse_digits-IsU64 (c ∷ s) 0 (omega arith)

positive-IsInt64 : (o : Option ℕ) → Holds IsInt64 (positive o)
positive-IsInt64 none = tt
positive-IsInt64 (some n) = elim (Bool-cases (ltb n (2 ^ 63))) [
  | inl e ↦ rw e (ground (arith, e))
  | inr e ↦ rw e tt
]

negative-IsInt64 : (o : Option ℕ) → Holds IsInt64 (negative o)
negative-IsInt64 none = tt
negative-IsInt64 (some zero) = omega arith
negative-IsInt64 (some (suc n)) = elim (Bool-cases (ltb n (2 ^ 63))) [
  | inl e ↦ rw e (ground (arith, e))
  | inr e ↦ rw e tt
]

pub atoi-IsInt64 : (s : Bytes) → Holds IsInt64 (atoi s)
unfolding atoi
atoi-IsInt64 [] = tt
atoi-IsInt64 (c ∷ s) = elim (Bool-cases (c == b'-')) [
  | inl e ↦ rw e (negative-IsInt64 (parse_uint s))
  | inr e ↦ elim (Bool-cases (c == b'+')) [
    | inl e' ↦ rw (e, e') (positive-IsInt64 (parse_uint s))
    | inr e' ↦ rw (e, e') (positive-IsInt64 (parse_uint (c ∷ s)))
  ]
]
