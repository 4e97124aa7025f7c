-- ===== src/Text.antt =====
-- What the programs use of Go's strconv, strings and fmt: decimal numbers, and texts that are taken
-- apart and put together.
pub mod Decimal
pub mod Splitting
pub mod Ranges
use Prim.Native.Char.{code}
use Prim.Native.String.{String}
use navi_kv.Prelude.{
  ℕ, zero, suc, ◌+◌, ◌-◌, ◌*◌, ◌/◌, ◌%◌, ◌^◌, Bool, ◌&&◌, ◌||◌, Option, none, some,
}
use navi_kv.Prelude.{List, [], ◌∷◌, ◌++◌, ltb, leb, ◌==◌, if◌then◌else◌, u64_limit, length}
use navi_kv.Prelude.Int.{ℤ, pos, negsuc}
use navi_kv.Bytes.{Bytes}

-- The bytes of an ASCII text. `String` has its own `[]` and `∷`.
abbrev pub text : String → Bytes
text String.[] = []
text (String.◌∷◌ c s) = code c ∷ text s

abbrev pub is_digit : ℕ → Bool
is_digit c = leb b'0' c && leb c b'9'

-- The digits of `n` in front of `tail`; every round divides by ten, so `suc n` rounds are enough.
unfoldable pub digits : ℕ → ℕ → Bytes → Bytes
digits zero n tail = tail
digits (suc fuel) n tail =
    let more = digits fuel (n / 10) ((b'0' + n % 10) ∷ tail) in
    if ltb n 10 then (b'0' + n) ∷ tail else more

-- `%d` of a number that is not negative.
unfoldable pub to_decimal : ℕ → Bytes
unfolding digits
to_decimal n = digits (suc n) n []

-- The loop of `strconv.ParseUint` for base 10: a character that is no digit is a syntax error, and
-- a value of 64 bits or more a range error.
unfoldable pub parse_digits : Bytes → ℕ → Option ℕ
parse_digits [] n = some n
parse_digits (c ∷ cs) n =
    let next = n * 10 + (c - b'0') in
    let rest = parse_digits cs next in if is_digit c && ltb next u64_limit then rest else none

-- `strconv.ParseUint(s, 10, 64)`; either error is `none`.
unfoldable pub parse_uint : Bytes → Option ℕ
unfolding parse_digits
parse_uint [] = none
parse_uint (c ∷ cs) = parse_digits (c ∷ cs) 0

-- A magnitude in the range of an int.
abbrev pub positive : Option ℕ → Option ℤ
positive none = none
positive (some n) = if ltb n (2 ^ 63) then some (pos n) else none

abbrev pub negative : Option ℕ → Option ℤ
negative none = none
negative (some zero) = some (pos 0)
negative (some (suc n)) = if ltb n (2 ^ 63) then some (negsuc n) else none

-- `strconv.Atoi`, with one sign at most.
unfoldable pub atoi : Bytes → Option ℤ
unfolding parse_uint
atoi [] = none
atoi (c ∷ cs) =
    if c == b'-'
    then negative (parse_uint cs)
    else if c == b'+'
    then positive (parse_uint cs)
    else positive (parse_uint (c ∷ cs))

abbrev in_front : ℕ → List Bytes → List Bytes
in_front c [] = (c ∷ []) ∷ []
in_front c (p ∷ ps) = (c ∷ p) ∷ ps

-- `strings.Split` at a separator of one byte.
unfoldable pub split : ℕ → Bytes → List Bytes
split sep [] = [] ∷ []
split sep (c ∷ s) = let rest = split sep s in if c == sep then [] ∷ rest else in_front c rest

-- `strings.Join` with a separator of one byte.
unfoldable pub join : ℕ → List Bytes → Bytes
join sep [] = []
join sep (p ∷ []) = p
join sep (p ∷ q ∷ ps) = p ++ sep ∷ join sep (q ∷ ps)

abbrev is_space : ℕ → Bool
is_space c = (leb 9 c && leb c 13) || c == 32

-- The word in front, then those behind it.
abbrev extend : ℕ → List Bytes → List Bytes
extend c [] = (c ∷ []) ∷ []
extend c (w ∷ ws) = (c ∷ w) ∷ ws

-- The words of a text, the first of which may be empty.
unfoldable pub words : Bytes → List Bytes
words [] = [] ∷ []
words (c ∷ s) = let rest = words s in if is_space c then [] ∷ rest else extend c rest

unfoldable pub not_empty_words : List Bytes → List Bytes
not_empty_words [] = []
not_empty_words (w ∷ ws) = let rest = not_empty_words ws in if length w == 0 then rest else w ∷ rest

-- `strings.Fields` of an ASCII text.
unfoldable pub fields : Bytes → List Bytes
unfolding words not_empty_words
fields s = not_empty_words (words s)
