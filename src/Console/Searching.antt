-- ===== src/Console/Searching.antt =====
-- Opening and closing search tabs.
use navi_kv.Prelude.{ℕ, zero, suc, ◌<◌, ◌≤◌, ◌≡◌, refl, ap, ◌∙◌, arith}
use navi_kv.Prelude.{Bool, true, false, ◌&&◌, List, [], ◌∷◌, ◌++◌, some}
use navi_kv.Prelude.{
  ◌==◌, ltb, leb, length, take, drop, get_elem?, get_elem?-lt, ok, ◌>>=◌, Outcome-cases, Bool-cases,
  inl, inr,
}
use navi_kv.Bytes.{Bytes}
use navi_kv.Console.Highlight.{render_tab_lines}
use navi_kv.Console.{
  Tab, Console, all_back, all_forward, move_back, move_forward, close_search_tab, open_search_tab,
  search_tab, matching,
}

get_elem?-insert {ℓ} :
    {A : Type ℓ} (n : ℕ) (xs : List A) (a : A)
    → n ≤ length xs
    → get_elem? (take n xs ++ a ∷ drop n xs) n ≡ some a
get_elem?-insert zero xs a h = refl
get_elem?-insert (suc n) [] a h = absurd (omega arith)
get_elem?-insert (suc n) (x ∷ xs) a h = get_elem?-insert n xs a (omega arith)

-- Taking out what was put in.
take_out {ℓ} :
    {A : Type ℓ} (n : ℕ) (xs : List A) (a : A)
    → n ≤ length xs
    → take n (take n xs ++ a ∷ drop n xs) ++ drop (suc n) (take n xs ++ a ∷ drop n xs) ≡ xs
take_out zero xs a h = refl
take_out (suc n) [] a h = absurd (omega arith)
take_out (suc n) (x ∷ xs) a h = ap (λ l. x ∷ l) (take_out n xs a (omega arith))

move_forward-move_back : (at : ℕ) (t : Tab) → move_forward at (move_back at t) ≡ t
move_forward-move_back at t = elim (Bool-cases (t.is_search && leb at t.source_tab)) [
  | inl later ↦
      let moves : (t.is_search && ltb at (suc t.source_tab)) ≡ true = ground arith in
      rw (later, moves) (ap (λ k. record t { source_tab = k }) (omega arith))
  | inr earlier ↦
      let stays : (t.is_search && ltb at t.source_tab) ≡ false = ground arith in
      rw (earlier, stays) refl
]

all_forward-all_back : (at : ℕ) (ts : List Tab) → all_forward at (all_back at ts) ≡ ts
unfolding all_forward all_back
all_forward-all_back at [] = refl
all_forward-all_back at (t ∷ ts) =
    ap (λ x. x ∷ all_forward at (all_back at ts)) (move_forward-move_back at t)
    ∙ ap (λ l. t ∷ l) (all_forward-all_back at ts)

pub length-all_back : (at : ℕ) (ts : List Tab) → length (all_back at ts) ≡ length ts
unfolding all_back
length-all_back at [] = refl
length-all_back at (t ∷ ts) = ap suc (length-all_back at ts)

module _ (lower : Bytes → Bytes) (contains : Bytes → Bytes → Bool) (mark : Bytes → Bytes) where
  -- Opening a search tab and closing it at once is no more than rendering the lines that are found:
  -- if that does not panic, all tabs are as they were, their sources included, and the source is
  -- active. The search is for a query that is not empty, in a tab that is there.
  pub close_search_tab-open_search_tab :
      (source : ℕ) (query : Bytes) (c : Console) {t : Tab}
      → get_elem? c.tabs source ≡ some t
      → 0 < length query
      → (open_search_tab lower contains mark source query c >>= λ c'.
          ok (close_search_tab (suc source) c'))
        ≡ (render_tab_lines lower mark (matching lower contains query t.lines) query >>= λ rendered.
            ok (record c { active_tab = source }))
  unfolding close_search_tab open_search_tab
  close_search_tab-open_search_tab source query c {t} here named =
      let lt : source < length c.tabs = get_elem?-lt c.tabs source here in
      let at = suc source in
      let n : at ≤ length (all_back at c.tabs) = omega (arith, length-all_back at c.tabs) in
      let asked : (length query == 0) ≡ false = ground arith in
      let new = search_tab lower contains source query t in
      let found = get_elem?-insert at (all_back at c.tabs) new n in
      let out = take_out at (all_back at c.tabs) new n in
      let back = all_forward-all_back at c.tabs in
      let before : ltb (suc source) source ≡ false = ground arith in
      let inside : leb (length c.tabs) source ≡ false = ground arith in
      let closed : close_search_tab (suc source) (record {
        tabs = take at (all_back at c.tabs) ++ new ∷ drop at (all_back at c.tabs);
        active_tab = at;
      })
          ≡ record c { active_tab = source } =
        rw (found, out, back, before, inside) refl in
      elim (Outcome-cases
        (render_tab_lines lower mark (matching lower contains query t.lines) query)) [
          | inl (rendered, shown) ↦ rw (here, asked, shown) (ap (λ x. ok x) closed)
          | inr stuck ↦ rw (here, asked, stuck) refl
        ]
