-- ===== src/Console/Rendered.antt =====
-- The rendering of the tabs' lines: `setContent` and the operations that call it, as long as
-- `ToLower` keeps the lengths of the lines and of the queries.
use navi_kv.Prelude.{
  ℕ, zero, suc, ◌≡◌, refl, arith, Bool, true, false, not, ◌&&◌, ◌||◌, List, [], ◌∷◌, ◌++◌, some,
  All, All-append, All-take, All-drop, map, modify, length, get_elem?, take, drop, ◌==◌,
  if◌then◌else◌, Bool-cases, Option-cases, ltb, leb, inl, inr, ok, Returns, Returns-bind,
  Returns-map, Returns-eq_ok,
}
use navi_kv.Bytes.{Bytes}
use navi_kv.Console.{
  Tab, Console, all_back, all_forward, is_match, matching, search_tab, set_content, open_search_tab,
  propagate_to_search_tabs, append_to_tab, close_search_tab,
}
use navi_kv.Console.Highlight.{render_line, render_tab_lines}
use navi_kv.Console.Highlight.Marked.{render_line_lem}

-- The small letters of a text take as many bytes as the text.
abbrev pub KeepsLength : (Bytes → Bytes) → Bytes → Type 0
KeepsLength lower s = length (lower s) ≡ length s

-- All lines of a tab keep their length, and its query does, if it has one.
abbrev pub IsRenderable : (Bytes → Bytes) → Tab → Type 0
IsRenderable lower t =
    All (KeepsLength lower) t.lines × ((length t.query == 0) ≡ false → KeepsLength lower t.query)

All-all_back :
    (lower : Bytes → Bytes) (at : ℕ) (ts : List Tab)
    → All (IsRenderable lower) ts
    → All (IsRenderable lower) (all_back at ts)
unfolding all_back
All-all_back lower at [] h = tt
All-all_back lower at (t ∷ ts) (here, rest) = (
  elim (Bool-cases (t.is_search && leb at t.source_tab)) [
    | inl later ↦ rw later here
    | inr earlier ↦ rw earlier here
  ],
  All-all_back lower at ts rest,
)

All-all_forward :
    (lower : Bytes → Bytes) (at : ℕ) (ts : List Tab)
    → All (IsRenderable lower) ts
    → All (IsRenderable lower) (all_forward at ts)
unfolding all_forward
All-all_forward lower at [] h = tt
All-all_forward lower at (t ∷ ts) (here, rest) = (
  elim (Bool-cases (t.is_search && ltb at t.source_tab)) [
    | inl later ↦ rw later here
    | inr earlier ↦ rw earlier here
  ],
  All-all_forward lower at ts rest,
)

pub close_search_tab-AllRenderable :
    (lower : Bytes → Bytes) (idx : ℕ) (c : Console)
    → All (IsRenderable lower) c.tabs
    → All (IsRenderable lower) (close_search_tab idx c).tabs
unfolding close_search_tab
close_search_tab-AllRenderable lower idx c h = elim (Option-cases (get_elem? c.tabs idx)) [
  | inl missing ↦ rw missing h
  | inr (t, here) ↦ elim (Bool-cases t.is_search) [
    | inl search ↦
        rw (here, search)
          (All-all_forward lower idx (take idx c.tabs ++ drop (suc idx) c.tabs) (
            All-append (IsRenderable lower) (take idx c.tabs) (drop (suc idx) c.tabs)
              (All-take (IsRenderable lower) idx c.tabs h)
              (All-drop (IsRenderable lower) (suc idx) c.tabs h)))
    | inr other ↦ rw (here, other) h
  ]
]

All-modify :
    (lower : Bytes → Bytes) (u : Tab) (ts : List Tab) (i : ℕ)
    → IsRenderable lower u
    → All (IsRenderable lower) ts
    → All (IsRenderable lower) (modify ts i (λ old. u))
All-modify lower u [] i new h = tt
All-modify lower u (t ∷ ts) zero new (here, rest) = (new, rest)
All-modify lower u (t ∷ ts) (suc i) new (here, rest) = (here, All-modify lower u ts i new rest)

All-get_elem? :
    (lower : Bytes → Bytes) (ts : List Tab) (i : ℕ) {t : Tab}
    → get_elem? ts i ≡ some t
    → All (IsRenderable lower) ts
    → IsRenderable lower t
All-get_elem? lower [] i e h = cc
All-get_elem? lower (x ∷ ts) zero {t} e (here, rest) = let same : x ≡ t = cc in rw same at here
All-get_elem? lower (x ∷ ts) (suc i) e (here, rest) = All-get_elem? lower ts i e rest

module _ (lower : Bytes → Bytes) (contains : Bytes → Bytes → Bool) (mark : Bytes → Bytes) where
  render_line-Returns :
      (line query : Bytes)
      → KeepsLength lower line
      → ((length query == 0) ≡ false → KeepsLength lower query)
      → Returns (λ out. Unit {0}) (render_line lower mark line query)
  unfolding render_line
  render_line-Returns line query l q = elim (Bool-cases (length query == 0)) [
    | inl empty ↦ rw empty tt
    | inr asked ↦
        Returns-map _ (λ out. Unit {0}) (render_line lower mark line query)
          (render_line_lem lower mark line query l (q asked)) (λ out e p. tt)
  ]

  render_tab_lines-Returns :
      (ls : List Bytes) (query : Bytes)
      → All (KeepsLength lower) ls
      → ((length query == 0) ≡ false → KeepsLength lower query)
      → Returns (λ out. Unit {0}) (render_tab_lines lower mark ls query)
  unfolding render_tab_lines
  render_tab_lines-Returns [] query h q = tt
  render_tab_lines-Returns (l ∷ ls) query (here, rest) q =
      Returns-bind (λ out. Unit {0}) (λ out. Unit {0}) (render_line lower mark l query) _
        (render_line-Returns l query here q)
        λ out e u.
          Returns-bind (λ o. Unit {0}) (λ o. Unit {0}) (render_tab_lines lower mark ls query) _
            (render_tab_lines-Returns ls query rest q) λ o e' u'. tt

  pub set_content_lem : (t : Tab) → IsRenderable lower t → set_content lower contains mark t ≡ ok t
  set_content_lem t (l, q) =
      let (out, e, u) =
        Returns-eq_ok (λ out. Unit {0}) (render_tab_lines lower mark t.lines t.query)
          (render_tab_lines-Returns t.lines t.query l q) in
      rw e refl

  All-matching :
      (query : Bytes) (ls : List Bytes)
      → All (KeepsLength lower) ls
      → All (KeepsLength lower) (matching lower contains query ls)
  unfolding matching
  All-matching query [] h = tt
  All-matching query (l ∷ ls) (here, rest) = elim (Bool-cases (is_match lower contains query l)) [
    | inl hit ↦ rw hit (here, All-matching query ls rest)
    | inr miss ↦ rw miss (All-matching query ls rest)
  ]

  -- The console with the search tab of a query in the tab `t` at `source`.
  abbrev pub opened : ℕ → Bytes → Tab → Console → Console
  opened source query t c =
      let tabs = all_back (suc source) c.tabs in
      record {
        tabs =
            take (suc source) tabs
            ++ search_tab lower contains source query t ∷ drop (suc source) tabs;
        active_tab = suc source;
      }

  pub open_search_tab-opened :
      (source : ℕ) (query : Bytes) (c : Console) {t : Tab}
      → All (IsRenderable lower) c.tabs
      → KeepsLength lower query
      → get_elem? c.tabs source ≡ some t
      → (length query == 0) ≡ false
      → (open_search_tab lower contains mark source query c ≡ ok (opened source query t c))
        × All (IsRenderable lower) (opened source query t c).tabs
  unfolding open_search_tab
  open_search_tab-opened source query c {t} h q here asked =
      let new = search_tab lower contains source query t in
      let tabs = all_back (suc source) c.tabs in
      let renderable : IsRenderable lower new =
        (All-matching query t.lines (All-get_elem? lower c.tabs source here h).0, λ e. q) in
      let all = All-all_back lower (suc source) c.tabs h in
      (
        rw (here, asked, set_content_lem new renderable) refl,
        All-append (IsRenderable lower) (take (suc source) tabs) (new ∷ drop (suc source) tabs)
            (All-take (IsRenderable lower) (suc source) tabs all)
            (renderable, All-drop (IsRenderable lower) (suc source) tabs all),
      )

  abbrev pub with_line : Bytes → Tab → Tab
  with_line line t = record t { lines = t.lines ++ line ∷ [] }

  -- Whether a tab follows the tab at `idx` and its search matches the line.
  abbrev pub follows : ℕ → Bytes → Tab → Bool
  follows idx line t = (t.is_search && t.source_tab == idx) && is_match lower contains t.query line

  -- The line reaches the tabs that follow.
  abbrev pub passed_on : ℕ → Bytes → Tab → Tab
  passed_on idx line t = if follows idx line t then with_line line t else t

  with_line-IsRenderable :
      (line : Bytes) (t : Tab)
      → KeepsLength lower line
      → IsRenderable lower t
      → IsRenderable lower (with_line line t)
  with_line-IsRenderable line t l (ls, q) =
      (All-append (KeepsLength lower) t.lines (line ∷ []) ls (l, tt), q)

  propagate-passed_on :
      (idx : ℕ) (line : Bytes) (ts : List Tab)
      → KeepsLength lower line
      → All (IsRenderable lower) ts
      → (propagate_to_search_tabs lower contains mark idx line ts
          ≡ ok (map (passed_on idx line) ts))
        × All (IsRenderable lower) (map (passed_on idx line) ts)
  unfolding propagate_to_search_tabs
  propagate-passed_on idx line [] l h = (refl, tt)
  propagate-passed_on idx line (t ∷ ts) l (here, rest) =
      let (e, all) = propagate-passed_on idx line ts l rest in
      let new = with_line-IsRenderable line t l here in
      elim (Bool-cases (follows idx line t)) [
        | inl reached ↦
            let taken : ((not t.is_search || not (t.source_tab == idx))
                  || not (is_match lower contains t.query line))
                ≡ false =
              ground arith in
            rw (reached, taken, set_content_lem (with_line line t) new, e) (refl, (new, all))
        | inr no' ↦
            let left : ((not t.is_search || not (t.source_tab == idx))
                  || not (is_match lower contains t.query line))
                ≡ true =
              ground arith in
            rw (no', left, e) (refl, (here, all))
      ]

  -- The tabs when a line has been appended to the tab `t` at `idx`.
  abbrev pub appended : ℕ → Bytes → Tab → List Tab → List Tab
  appended idx line t ts = map (passed_on idx line) (modify ts idx (λ old. with_line line t))

  pub append_to_tab-appended :
      (idx : ℕ) (line : Bytes) (c : Console) {t : Tab}
      → All (IsRenderable lower) c.tabs
      → KeepsLength lower line
      → get_elem? c.tabs idx ≡ some t
      → (append_to_tab lower contains mark idx line c
          ≡ ok (record c { tabs = appended idx line t c.tabs }))
        × All (IsRenderable lower) (appended idx line t c.tabs)
  unfolding append_to_tab
  append_to_tab-appended idx line c {t} h l here =
      let new = with_line-IsRenderable line t l (All-get_elem? lower c.tabs idx here h) in
      let (e, all) =
        propagate-passed_on idx line (modify c.tabs idx (λ old. with_line line t)) l
          (All-modify lower (with_line line t) c.tabs idx new h) in
      (rw (here, set_content_lem (with_line line t) new, e) refl, all)
