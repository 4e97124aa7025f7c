-- ===== src/Console/Highlight/Marked.antt =====
-- What `renderLine` shows.
use navi_kv.Prelude.{
  ℕ, zero, suc, ◌+◌, ◌-◌, ◌<◌, ◌≤◌, ◌≡◌, refl, sym, ap, ◌∙◌, arith, Bool, true, false, ◌&&◌, Option,
  none, some, List, [], ◌∷◌, ◌++◌, ◌==◌, leb, if◌then◌else◌, length, take, drop, length-drop,
  take_all, take-append-drop, append-nil, Bool-cases, inl, inr, ok, Returns, Returns-bind,
}
use navi_kv.Bytes.{Bytes, slice}
use navi_kv.Console.Highlight.{
  has_prefix, index_of, one_later, tail_from, mark_matches, render_line,
}

-- A piece of the line, and whether it is marked.
abbrev pub shown : (Bytes → Bytes) → List (Bool × Bytes) → Bytes
shown mark [] = []
shown mark ((b, s) ∷ ps) = (if b then mark s else s) ++ shown mark ps

has_prefix-le : (p s : Bytes) → has_prefix p s ≡ true → length p ≤ length s
unfolding has_prefix
has_prefix-le [] s h = omega arith
has_prefix-le (a ∷ p) [] h = cc
has_prefix-le (a ∷ p) (c ∷ s) h = ground (arith, has_prefix-le p s)

-- A match lies in the text.
abbrev Fits : Bytes → Bytes → Option ℕ → Type 0
Fits p s none = Unit
Fits p s (some i) = i + length p ≤ length s

one_later-Fits : (p s : Bytes) (c : ℕ) (o : Option ℕ) → Fits p s o → Fits p (c ∷ s) (one_later o)
one_later-Fits p s c none h = tt
one_later-Fits p s c (some i) h = omega (arith, h)

index_of-Fits : (s p : Bytes) → Fits p s (index_of s p)
unfolding index_of
index_of-Fits [] p = elim (Bool-cases (has_prefix p [])) [
  | inl e ↦ rw e (omega (arith, has_prefix-le p [] e))
  | inr e ↦ rw e tt
]
index_of-Fits (c ∷ s) p = elim (Bool-cases (has_prefix p (c ∷ s))) [
  | inl e ↦ rw e (omega (arith, has_prefix-le p (c ∷ s) e))
  | inr e ↦ rw e (one_later-Fits p s c (index_of s p) (index_of-Fits s p))
]

match-le : (s p : Bytes) (i : ℕ) → index_of s p ≡ some i → i + length p ≤ length s
match-le s p i e = rw e at (index_of-Fits s p)

slice_lem :
    (s : Bytes) (lo hi : ℕ)
    → lo ≤ hi
    → hi ≤ length s
    → slice s lo hi ≡ ok (take (hi - lo) (drop lo s))
unfolding slice
slice_lem s lo hi h k =
    let inside : (leb lo hi && leb hi (length s)) ≡ true = ground arith in rw inside refl

slice_front : (s : Bytes) (i : ℕ) → i ≤ length s → slice s 0 i ≡ ok (take i s)
slice_front s i h =
    let size : i - 0 ≡ i = omega arith in
    slice_lem s 0 i (omega arith) h ∙ ap (λ k. ok (take k s)) size

slice_match : (s : Bytes) (i n : ℕ) → i + n ≤ length s → slice s i (i + n) ≡ ok (take n (drop i s))
slice_match s i n h =
    let size : i + n - i ≡ n = omega arith in
    slice_lem s i (i + n) (omega arith) h ∙ ap (λ k. ok (take k (drop i s))) size

tail_from_lem : (s : Bytes) (lo : ℕ) → lo ≤ length s → tail_from s lo ≡ ok (drop lo s)
tail_from_lem s lo h =
    let all_left : length s - lo ≡ length (drop lo s) = omega (arith, length-drop lo s) in
    slice_lem s lo (length s) h (omega arith)
    ∙ ap ok (ap (λ n. take n (drop lo s)) all_left ∙ take_all (drop lo s))

drop-drop : (i n : ℕ) (s : Bytes) → drop (i + n) s ≡ drop n (drop i s)
drop-drop zero n s = let at : zero + n ≡ n = omega arith in rw at refl
drop-drop (suc i) zero [] = let at : suc i + zero ≡ suc i = omega arith in rw at refl
drop-drop (suc i) (suc n) [] = let at : suc i + suc n ≡ suc (i + suc n) = omega arith in rw at refl
drop-drop (suc i) n (c ∷ s) =
    let at : suc i + n ≡ suc (i + n) = omega arith in rw at (drop-drop i n s)

-- The line in three parts: before the match, the match, and behind it.
three_parts :
    (i n : ℕ) (line : Bytes) → take i line ++ (take n (drop i line) ++ drop (i + n) line) ≡ line
three_parts i n line =
    rw (drop-drop i n line, take-append-drop n (drop i line)) (take-append-drop i line)

-- The two texts have the same length, and a match has the length of the query.
mark_matches_lem :
    (mark : Bytes → Bytes) (lower_query : Bytes) (fuel : ℕ) (at : Option ℕ)
    (line lower_line : Bytes)
    → 0 < length lower_query
    → index_of lower_line lower_query ≡ at
    → length lower_line ≡ length line
    → length line ≤ fuel
    → Returns
        (λ out. (ps : List (Bool × Bytes)) × (out ≡ shown mark ps) × (shown (λ s. s) ps ≡ line))
        (mark_matches mark lower_query (length lower_query) fuel at line lower_line)
unfolding mark_matches
mark_matches_lem mark q fuel none line low some_query e same enough =
    ((false, line) ∷ [], sym (append-nil line), append-nil line)
mark_matches_lem mark q zero (some i) line low some_query e same enough =
    absurd (omega (arith, match-le low q i e, same, enough))
mark_matches_lem mark q (suc fuel) (some i) line low some_query e same enough =
    let n = length q in
    let inside : i + n ≤ length low = match-le low q i e in
    let low' = drop (i + n) low in
    let line' = drop (i + n) line in
    let shorter : length low' ≡ length line' =
      omega (arith, length-drop (i + n) low, length-drop (i + n) line, same) in
    rw
      (
        slice_front line i (omega (arith, inside, same)),
        slice_match line i n (omega (arith, inside, same)),
        tail_from_lem line (i + n) (omega (arith, inside, same)),
        tail_from_lem low (i + n) inside,
      )
      (Returns-bind
        (λ out. (ps : List (Bool × Bytes)) × (out ≡ shown mark ps) × (shown (λ s. s) ps ≡ line'))
        (λ out. (ps : List (Bool × Bytes)) × (out ≡ shown mark ps) × (shown (λ s. s) ps ≡ line))
        (mark_matches mark q n fuel (index_of low' q) line' low') _
        (mark_matches_lem mark q fuel (index_of low' q) line' low' some_query refl shorter
          (omega (arith, length-drop (i + n) line, enough, some_query)))
        λ rest e' (ps, marked, whole). (
          (false, take i line) ∷ (true, take n (drop i line)) ∷ ps,
          ap (λ r. take i line ++ (mark (take n (drop i line)) ++ r)) marked,
          ap (λ r. take i line ++ (take n (drop i line) ++ r)) whole ∙ three_parts i n line,
        ))

-- If `ToLower` keeps the lengths of the line and the query, `renderLine` returns after as many
-- rounds as the line has bytes at most, and shows the line in pieces that are marked or not, and
-- that joined without marks are the line.
pub render_line_lem :
    (lower mark : Bytes → Bytes) (line query : Bytes)
    → length (lower line) ≡ length line
    → length (lower query) ≡ length query
    → Returns
        (λ out. (ps : List (Bool × Bytes)) × (out ≡ shown mark ps) × (shown (λ s. s) ps ≡ line))
        (render_line lower mark line query)
unfolding render_line
render_line_lem lower mark line query same_line same_query = elim (Bool-cases (length query == 0)) [
  | inl empty ↦ rw empty ((false, line) ∷ [], sym (append-nil line), append-nil line)
  | inr asked ↦ rw asked (
      rw same_query at (
        mark_matches_lem mark (lower query) (length line) (index_of (lower line) (lower query)) line
          (lower line) (ground (arith, asked, same_query)) refl same_line (omega arith)))
]
