-- ===== src/Console/Highlight.antt =====
-- cmd/navi-cli/main.go: `renderLine` and `renderTabLines`. `lower` is `strings.ToLower`, and `mark` the rendering of a
-- match.
pub mod Marked
use navi_kv.Prelude.{
  ℕ, zero, suc, ◌+◌, Bool, true, false, ◌&&◌, Option, none, some, List, [], ◌∷◌, ◌++◌,
}
use navi_kv.Prelude.{◌==◌, if◌then◌else◌, length, ◌>>=◌, Outcome, ok, panic}
use navi_kv.Bytes.{Bytes, slice}

unfoldable pub has_prefix : Bytes → Bytes → Bool
has_prefix [] s = true
has_prefix (a ∷ p) [] = false
has_prefix (a ∷ p) (c ∷ s) = a == c && has_prefix p s

abbrev pub one_later : Option ℕ → Option ℕ
one_later none = none
one_later (some i) = some (suc i)

-- `strings.Index`, with `none` for -1.
unfoldable pub index_of : Bytes → Bytes → Option ℕ
unfolding has_prefix
index_of [] p = if has_prefix p [] then some 0 else none
index_of (c ∷ s) p =
    let rest = one_later (index_of s p) in if has_prefix p (c ∷ s) then some 0 else rest

-- `s[lo:]`
abbrev pub tail_from : Bytes → ℕ → Outcome Bytes
tail_from s lo = slice s lo (length s)

module _ (mark : Bytes → Bytes) (lower_query : Bytes) (size : ℕ) where
  -- The loop from a position of the next match on; `size` is the length of the query.
  unfoldable pub mark_matches : ℕ → Option ℕ → Bytes → Bytes → Outcome Bytes
  unfolding index_of slice
  mark_matches fuel none line lower_line = ok line
  mark_matches zero (some idx) line lower_line = panic
  mark_matches (suc fuel) (some idx) line lower_line = do
    before ← slice line 0 idx
    matched ← slice line idx (idx + size)
    line' ← tail_from line (idx + size)
    lower' ← tail_from lower_line (idx + size)
    rest ← mark_matches fuel (index_of lower' lower_query) line' lower'
    ok (before ++ (mark matched ++ rest))

-- Each round takes a match of one byte at least off the line, so as many rounds as it has bytes are
-- enough.
unfoldable pub render_line : (Bytes → Bytes) → (Bytes → Bytes) → Bytes → Bytes → Outcome Bytes
unfolding mark_matches index_of
render_line lower mark line query =
    if length query == 0
    then ok line
    else mark_matches mark (lower query) (length query) (length line)
        (index_of (lower line) (lower query)) line (lower line)

-- The rendered lines of a tab, each with its end.
unfoldable pub render_tab_lines :
    (Bytes → Bytes) → (Bytes → Bytes) → List Bytes → Bytes → Outcome Bytes
unfolding render_line
render_tab_lines lower mark [] query = ok []
render_tab_lines lower mark (l ∷ ls) query = do
  rendered ← render_line lower mark l query
  rest ← render_tab_lines lower mark ls query
  ok (rendered ++ 10 ∷ rest)
