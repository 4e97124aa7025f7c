-- ===== src/Text/Decimal.antt =====
-- A number that is printed in decimal is parsed again.
use navi_kv.Prelude.{
  ℕ, zero, suc, ◌+◌, ◌/◌, ◌%◌, ◌^◌, ◌<◌, ◌≡◌, refl, ap, arith, true, false, inl, inr, Bool-cases,
  ◌==◌, some, [], ◌∷◌, ◌++◌, ltb, All,
}
use navi_kv.Prelude.Int.{pos}
use navi_kv.Bytes.{Bytes, IsU64}
use navi_kv.Text.{is_digit, digits, to_decimal, parse_digits, parse_uint, atoi}

-- The loop on printed digits comes to the number.
parse_digits-digits :
    (fuel n : ℕ) (tail : Bytes)
    → n < fuel
    → IsU64 n
    → parse_digits (digits fuel n tail) 0 ≡ parse_digits tail n
unfolding digits parse_digits
parse_digits-digits zero n tail h u = absurd (omega arith)
parse_digits-digits (suc fuel) n tail h u =
    ground (arith, parse_digits-digits fuel (n / 10) ((b'0' + n % 10) ∷ tail))

-- A digit more in front, or none.
pub All-digits :
    (P : ℕ → Type 0)
    → ((d : ℕ) → d < 10 → P (b'0' + d))
    → (fuel n : ℕ) (tail : Bytes) → All P tail
    → All P (digits fuel n tail)
unfolding digits
All-digits P p zero n tail h = h
All-digits P p (suc fuel) n tail h = elim (Bool-cases (ltb n 10)) [
  | inl e ↦ rw e (p n (ground arith), h)
  | inr e ↦
      rw e (All-digits P p fuel (n / 10) ((b'0' + n % 10) ∷ tail) (p (n % 10) (omega arith), h))
]

-- A text that starts with a digit.
pub record Digits (s : Bytes) : Type 0 where
  pub first : ℕ
  pub others : Bytes
  pub whole : s ≡ first ∷ others
  pub digit : is_digit first ≡ true

digit_code : (d : ℕ) → d < 10 → is_digit (b'0' + d) ≡ true
digit_code d h = ground arith

digits-Digits : (fuel n : ℕ) (tail : Bytes) → Digits tail → Digits (digits fuel n tail)
unfolding digits
digits-Digits zero n tail h = h
digits-Digits (suc fuel) n tail h = elim (Bool-cases (ltb n 10)) [
  | inl e ↦ rw e (record {
    first = b'0' + n;
    others = tail;
    whole = refl;
    digit = digit_code n (ground arith);
  })
  | inr e ↦ rw e (
      digits-Digits fuel (n / 10) ((b'0' + n % 10) ∷ tail) (record {
        first = b'0' + n % 10;
        others = tail;
        whole = refl;
        digit = digit_code (n % 10) (omega arith);
      }))
]

pub to_decimal-Digits : (n : ℕ) → Digits (to_decimal n)
unfolding to_decimal digits
to_decimal-Digits n = elim (Bool-cases (ltb n 10)) [
  | inl e ↦
      rw e (record {
        first = b'0' + n;
        others = [];
        whole = refl;
        digit = digit_code n (ground arith);
      })
  | inr e ↦ rw e (
      digits-Digits n (n / 10) ((b'0' + n % 10) ∷ []) (record {
        first = b'0' + n % 10;
        others = [];
        whole = refl;
        digit = digit_code (n % 10) (omega arith);
      }))
]

pub parse_uint-to_decimal : (n : ℕ) → IsU64 n → parse_uint (to_decimal n) ≡ some n
unfolding parse_uint to_decimal parse_digits
parse_uint-to_decimal n u =
    let d = to_decimal-Digits n in
    rw d.whole (rw d.whole at (parse_digits-digits (suc n) n [] (omega arith) u))

-- No sign is taken for a digit.
pub atoi-to_decimal : (n : ℕ) → n < 2 ^ 63 → atoi (to_decimal n) ≡ some (pos n)
unfolding atoi
atoi-to_decimal n h =
    let d = to_decimal-Digits n in
    let parsed = rw d.whole at (parse_uint-to_decimal n (omega arith)) in
    let minus : (d.first == b'-') ≡ false = ground (arith, d.digit) in
    let plus : (d.first == b'+') ≡ false = ground (arith, d.digit) in
    let fits : ltb n (2 ^ 63) ≡ true = ground arith in rw (d.whole, minus, plus, parsed, fits) refl

pub Digits-append : (s t : Bytes) → Digits s → Digits (s ++ t)
Digits-append s t d = record {
  first = d.first;
  others = d.others ++ t;
  whole = ap (λ u. u ++ t) d.whole;
  digit = d.digit;
}
