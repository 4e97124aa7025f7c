-- ===== src/Console.antt =====
-- cmd/navi-cli/main.go: the tabs of the console, without their views. `lower` and `contains` are
-- `strings.ToLower` and `strings.Contains`, `mark` is the rendering of a match.
pub mod Searching
pub mod Compose
pub mod Commands
pub mod Modals
pub mod Messages
pub mod Logs
pub mod Status
pub mod Closures
pub mod Ports
pub mod Highlight
pub mod OnTabs
pub mod Rendered
use navi_kv.Prelude.{ℕ, suc, ◌-◌, Bool, true, not, ◌&&◌, ◌||◌, List, [], ◌∷◌, ◌++◌, none, some}
use navi_kv.Prelude.{
  ◌==◌, ltb, leb, if◌then◌else◌, length, take, drop, get_elem?, modify, Option, Outcome, ok, ◌>>=◌,
}
use navi_kv.Bytes.{Bytes}
use navi_kv.Console.Highlight.{render_tab_lines}

pub record Tab : Type 0 where
  pub title : Bytes
  pub node : Bytes
  pub lines : List Bytes
  pub is_search : Bool
  pub source_tab : ℕ
  pub query : Bytes

pub record Console : Type 0 where
  pub tabs : List Tab
  pub active_tab : ℕ

-- The source of a search tab moves back when a tab is put in at `at`, and forward when the tab at
-- `at` is taken out.
abbrev pub move_back : ℕ → Tab → Tab
move_back at t =
    if t.is_search && leb at t.source_tab then record t { source_tab = suc t.source_tab } else t

abbrev pub move_forward : ℕ → Tab → Tab
move_forward at t =
    if t.is_search && ltb at t.source_tab then record t { source_tab = t.source_tab - 1 } else t

unfoldable pub all_back : ℕ → List Tab → List Tab
all_back at [] = []
all_back at (t ∷ ts) = move_back at t ∷ all_back at ts

unfoldable pub all_forward : ℕ → List Tab → List Tab
all_forward at [] = []
all_forward at (t ∷ ts) = move_forward at t ∷ all_forward at ts

-- The new active tab: the source, whose position is the one in the remaining tabs.
abbrev focus : ℕ → ℕ → ℕ → ℕ
focus idx source count =
    let moved = if ltb idx source then source - 1 else source in
    if leb count moved then count - 1 else moved

abbrev close_found : ℕ → Option Tab → Console → Console
close_found idx none c = c
close_found idx (some t) c =
    if not t.is_search
    then c
    else (let rest = all_forward idx (take idx c.tabs ++ drop (suc idx) c.tabs) in
        record { tabs = rest; active_tab = focus idx t.source_tab (length rest) })

unfoldable pub close_search_tab : ℕ → Console → Console
unfolding all_forward
close_search_tab idx c = close_found idx (get_elem? c.tabs idx) c

module _ (lower : Bytes → Bytes) (contains : Bytes → Bytes → Bool) where
  abbrev pub is_match : Bytes → Bytes → Bool
  is_match query line = contains (lower line) (lower query)

  unfoldable pub matching : Bytes → List Bytes → List Bytes
  matching query [] = []
  matching query (l ∷ ls) =
      let rest = matching query ls in if is_match query l then l ∷ rest else rest

  abbrev pub search_tab : ℕ → Bytes → Tab → Tab
  search_tab source query t = record {
    title = t.title ++ 32 ∷ 47 ∷ query;
    node = [];
    lines = matching query t.lines;
    is_search = true;
    source_tab = source;
    query = query;
  }

module _ (lower : Bytes → Bytes) (contains : Bytes → Bytes → Bool) (mark : Bytes → Bytes) where
  -- `setContent`: the lines are rendered for the view, which is left out; the rendering can panic.
  abbrev pub set_content : Tab → Outcome Tab
  set_content t = do rendered ← render_tab_lines lower mark t.lines t.query; ok t

  abbrev open_found : ℕ → Bytes → Option Tab → Console → Outcome Console
  open_found source query none c = ok c
  open_found source query (some t) c = if length query == 0 then ok c else (do
    new ← set_content (search_tab lower contains source query t)
    let tabs = all_back (suc source) c.tabs
    ok (record {
      tabs = take (suc source) tabs ++ new ∷ drop (suc source) tabs;
      active_tab = suc source;
    }))

  unfoldable pub open_search_tab : ℕ → Bytes → Console → Outcome Console
  unfolding all_back matching render_tab_lines
  open_search_tab source query c = open_found source query (get_elem? c.tabs source) c

  -- A tab gets one line more.
  abbrev pub extend : Bytes → Tab → Outcome Tab
  extend line t = set_content (record t { lines = t.lines ++ line ∷ [] })

  -- The new line goes to the search tabs of the tab that match it, and to no tab behind those.
  unfoldable pub propagate_to_search_tabs : ℕ → Bytes → List Tab → Outcome (List Tab)
  unfolding render_tab_lines
  propagate_to_search_tabs idx line [] = ok []
  propagate_to_search_tabs idx line (t ∷ ts) = do
    t' ←
        (if (not t.is_search || not (t.source_tab == idx))
            || not (is_match lower contains t.query line)
          then ok t
          else extend line t)
    ts' ← propagate_to_search_tabs idx line ts
    ok (t' ∷ ts')

  abbrev append_found : ℕ → Bytes → Option Tab → Console → Outcome Console
  append_found idx line none c = ok c
  append_found idx line (some t) c = do
    t' ← extend line t
    tabs ← propagate_to_search_tabs idx line (modify c.tabs idx (λ old. t'))
    ok (record c { tabs = tabs })

  unfoldable pub append_to_tab : ℕ → Bytes → Console → Outcome Console
  unfolding propagate_to_search_tabs render_tab_lines
  append_to_tab idx line c = append_found idx line (get_elem? c.tabs idx) c
