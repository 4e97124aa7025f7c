-- ===== src/Console/OnTabs.antt =====
-- The active tab of the console is one of its tabs, whatever is done to them.
use navi_kv.Prelude.{
  ℕ, zero, suc, ◌<◌, ◌≡◌, refl, ap, ◌∙◌, arith, Bool, true, false, List, [], ◌∷◌, ◌++◌, some, All,
  ◌==◌, if◌then◌else◌, length, take, drop, get_elem?, get_elem?-lt, modify, map, length-append,
  length-take, length-modify, Bool-cases, Option-cases, inl, inr, Returns, Returns-of,
}
use navi_kv.Bytes.{Bytes}
use navi_kv.Console.Searching.{length-all_back}
use navi_kv.Console.{
  Tab, Console, all_back, all_forward, close_search_tab, open_search_tab, search_tab, append_to_tab,
}
use navi_kv.Console.Rendered.{
  KeepsLength, IsRenderable, follows, with_line, passed_on, opened, open_search_tab-opened,
  appended, append_to_tab-appended,
}

-- The first tab is no search tab.
abbrev pub IsPlain : List Tab → Type 0
IsPlain [] = ⊥
IsPlain (t ∷ ts) = t.is_search ≡ false

pub record OnTabs (c : Console) : Type 0 where
  pub plain : IsPlain c.tabs
  pub active : c.active_tab < length c.tabs

length-map : (f : Tab → Tab) (ts : List Tab) → length (map f ts) ≡ length ts
length-map f [] = refl
length-map f (t ∷ ts) = ap suc (length-map f ts)

IsPlain-all_back : (at : ℕ) (ts : List Tab) → IsPlain ts → IsPlain (all_back at ts)
unfolding all_back
IsPlain-all_back at [] h = h
IsPlain-all_back at (t ∷ ts) h = rw h refl

length-all_forward : (at : ℕ) (ts : List Tab) → length (all_forward at ts) ≡ length ts
unfolding all_forward
length-all_forward at [] = refl
length-all_forward at (t ∷ ts) = ap suc (length-all_forward at ts)

IsPlain-take : (n : ℕ) (ts us : List Tab) → IsPlain ts → IsPlain (take (suc n) ts ++ us)
IsPlain-take n [] us h = absurd h
IsPlain-take n (t ∷ ts) us h = h

pub IsPlain-append : (ts us : List Tab) → IsPlain ts → IsPlain (ts ++ us)
IsPlain-append [] us h = absurd h
IsPlain-append (t ∷ ts) us h = h

IsPlain-modify :
    (u : Tab) (idx : ℕ) (ts : List Tab) {t : Tab}
    → get_elem? ts idx ≡ some t
    → u.is_search ≡ t.is_search
    → IsPlain ts
    → IsPlain (modify ts idx (λ old. u))
IsPlain-modify u idx [] e s h = h
IsPlain-modify u zero (x ∷ ts) {t} e s h = let same : x ≡ t = cc in s ∙ rw same at h
IsPlain-modify u (suc idx) (x ∷ ts) e s h = h

module _ (lower : Bytes → Bytes) (contains : Bytes → Bytes → Bool) (mark : Bytes → Bytes) where
  -- The search of a query that keeps its length, in a console whose tabs can be rendered.
  pub open_search_tab-OnTabs :
      (source : ℕ) (query : Bytes) (c : Console)
      → OnTabs c
      → All (IsRenderable lower) c.tabs
      → KeepsLength lower query
      → Returns
          (λ c'. OnTabs c' × All (IsRenderable lower) c'.tabs)
          (open_search_tab lower contains mark source query c)
  unfolding open_search_tab
  open_search_tab-OnTabs source query c o h q = elim (Option-cases (get_elem? c.tabs source)) [
    | inl missing ↦ rw missing (o, h)
    | inr (t, here) ↦ elim (Bool-cases (length query == 0)) [
      | inl empty ↦ rw (here, empty) (o, h)
      | inr asked ↦
          let (e, all) = open_search_tab-opened lower contains mark source query c h q here asked in
          Returns-of (λ c'. OnTabs c' × All (IsRenderable lower) c'.tabs)
            (open_search_tab lower contains mark source query c)
            (opened lower contains mark source query t c) e (on_tabs t here, all)
    ]
  ]
    where
      on_tabs :
          (t : Tab)
          → get_elem? c.tabs source ≡ some t
          → OnTabs (opened lower contains mark source query t c)
      on_tabs t here =
          let tabs = all_back (suc source) c.tabs in
          let new = search_tab lower contains source query t in
          record {
            plain =
                IsPlain-take source tabs (new ∷ drop (suc source) tabs)
                  (IsPlain-all_back (suc source) c.tabs o.plain);
            active = omega (
              arith,
              length-append (take (suc source) tabs) (new ∷ drop (suc source) tabs),
              length-take (suc source) tabs,
              length-all_back (suc source) c.tabs,
              get_elem?-lt c.tabs source here,
            );
          }

  IsPlain-passed_on :
      (idx : ℕ) (line : Bytes) (ts : List Tab)
      → IsPlain ts
      → IsPlain (map (passed_on lower contains mark idx line) ts)
  IsPlain-passed_on idx line [] h = h
  IsPlain-passed_on idx line (t ∷ ts) h =
      let left : follows lower contains mark idx line t ≡ false = rw h refl in
      ap (λ b. (if b then with_line lower contains mark line t else t).is_search) left ∙ h

  -- A line that keeps its length, at any index.
  pub append_to_tab-OnTabs :
      (idx : ℕ) (line : Bytes) (c : Console)
      → OnTabs c
      → All (IsRenderable lower) c.tabs
      → KeepsLength lower line
      → Returns
          (λ c'. OnTabs c' × All (IsRenderable lower) c'.tabs)
          (append_to_tab lower contains mark idx line c)
  unfolding append_to_tab
  append_to_tab-OnTabs idx line c o h l = elim (Option-cases (get_elem? c.tabs idx)) [
    | inl missing ↦ rw missing (o, h)
    | inr (t, here) ↦
        let (e, all) = append_to_tab-appended lower contains mark idx line c h l here in
        let new = with_line lower contains mark line t in
        let written = modify c.tabs idx (λ old. new) in
        Returns-of (λ c'. OnTabs c' × All (IsRenderable lower) c'.tabs)
          (append_to_tab lower contains mark idx line c)
          (record c { tabs = appended lower contains mark idx line t c.tabs }) e
          (
            record {
              plain =
                  IsPlain-passed_on idx line written
                    (IsPlain-modify new idx c.tabs here refl o.plain);
              active = omega (
                arith,
                length-map (passed_on lower contains mark idx line) written,
                length-modify c.tabs idx (λ old. new),
                o.active,
              );
            },
            all,
          )
  ]

-- A search tab is not the first one, so the first one is left.
IsPlain-removed :
    (idx : ℕ) (ts : List Tab) (t : Tab)
    → IsPlain ts
    → get_elem? ts idx ≡ some t
    → t.is_search ≡ true
    → IsPlain (all_forward idx (take idx ts ++ drop (suc idx) ts))
unfolding all_forward
IsPlain-removed idx [] t h here search = absurd h
IsPlain-removed zero (u ∷ ts) t h here search = cc
IsPlain-removed (suc idx) (u ∷ ts) t h here search = rw h refl

IsPlain-lt : (ts : List Tab) → IsPlain ts → 0 < length ts
IsPlain-lt [] h = absurd h
IsPlain-lt (t ∷ ts) h = omega arith

pub close_search_tab-OnTabs : (idx : ℕ) (c : Console) → OnTabs c → OnTabs (close_search_tab idx c)
unfolding close_search_tab
close_search_tab-OnTabs idx c o = elim (Option-cases (get_elem? c.tabs idx)) [
  | inl missing ↦ rw missing o
  | inr (t, here) ↦ elim (Bool-cases t.is_search) [
    | inl search ↦
        let rest = all_forward idx (take idx c.tabs ++ drop (suc idx) c.tabs) in
        let plain : IsPlain rest = IsPlain-removed idx c.tabs t o.plain here search in
        rw (here, search) (record { plain = plain; active = ground (arith, IsPlain-lt rest plain) })
    | inr other ↦ rw (here, other) o
  ]
]
