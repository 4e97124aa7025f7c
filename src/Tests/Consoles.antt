-- ===== src/Tests/Consoles.antt =====
-- The theorems on the console at concrete inputs.
use navi_kv.Prelude.{
  ℕ, true, ◌+◌, ◌&&◌, ◌++◌, List, map, leb, if◌then◌else◌, ok, panic, Returns, ◌≡◌, refl, false,
  Bool, [], ◌∷◌, arith, ◌>>=◌,
}
use navi_kv.Bytes.{Bytes, bytes_eq, slice}
use navi_kv.Text.{text}
use navi_kv.Console.Highlight.{render_line, render_tab_lines, index_of, has_prefix, mark_matches}
use navi_kv.Console.Highlight.Marked.{shown, render_line_lem}
use navi_kv.Console.{
  Tab, Console, close_search_tab, open_search_tab, append_to_tab, propagate_to_search_tabs,
  matching,
}
use navi_kv.Console.Searching.{close_search_tab-open_search_tab}

-- Texts without capitals, and a search for a whole line.
abbrev pub same_text : Bytes → Bytes
same_text b = b

abbrev pub whole_line : Bytes → Bytes → Bool
whole_line = bytes_eq

abbrev pub bracket : Bytes → Bytes
bracket s = b'[' ∷ (s ++ b']' ∷ [])

abbrev plain_tab : Bytes → Tab
plain_tab title = record {
  title = title;
  node = [];
  lines = (b'x' ∷ []) ∷ [];
  is_search = false;
  source_tab = 0;
  query = [];
}

abbrev two_tabs : Console
two_tabs = record { tabs = plain_tab (b'c' ∷ []) ∷ plain_tab (b'e' ∷ []) ∷ []; active_tab = 1 }

close_search_tab-open_search_tab_example :
    (open_search_tab same_text whole_line bracket 0 (b'x' ∷ []) two_tabs >>= λ c.
    ok (close_search_tab 1 c))
    ≡ (render_tab_lines same_text bracket
          (matching same_text whole_line (b'x' ∷ []) ((b'x' ∷ []) ∷ []))
          (b'x' ∷ [])
        >>= λ rendered. ok (record two_tabs { active_tab = 0 }))
close_search_tab-open_search_tab_example =
    close_search_tab-open_search_tab same_text whole_line bracket 0 (b'x' ∷ []) two_tabs refl
      (omega arith)

-- The rendering does not panic there.
found_line :
    render_tab_lines same_text bracket
      (matching same_text whole_line (b'x' ∷ []) ((b'x' ∷ []) ∷ []))
      (b'x' ∷ [])
    ≡ ok (text "[x]" ++ 10 ∷ [])
unfolding render_tab_lines matching render_line index_of has_prefix mark_matches slice bytes_eq
found_line = refl

abbrev pub lower_ascii : Bytes → Bytes
lower_ascii = map (λ c. if leb b'A' c && leb c b'Z' then c + 32 else c)

marked_twice :
    render_line lower_ascii bracket (text "Error: no error") (text "eRR")
    ≡ ok (text "[Err]or: no [err]or")
unfolding render_line index_of has_prefix mark_matches slice
marked_twice = refl

render_line_lem_example :
    Returns
      (λ out.
        (ps : List (Bool × Bytes)) × (out ≡ shown bracket ps)
        × (shown (λ s. s) ps ≡ text "Error: no error"))
      (render_line lower_ascii bracket (text "Error: no error") (text "eRR"))
render_line_lem_example =
    render_line_lem lower_ascii bracket (text "Error: no error") (text "eRR") refl refl

-- The letter U+023A has two bytes, and its small letter U+2C65 three.
abbrev lower_longer : Bytes → Bytes
lower_longer s = if bytes_eq s (200 ∷ 186 ∷ b'x' ∷ []) then 226 ∷ 177 ∷ 165 ∷ b'x' ∷ [] else s

longer_panics : render_line lower_longer bracket (200 ∷ 186 ∷ b'x' ∷ []) (text "x") ≡ panic
unfolding render_line index_of has_prefix mark_matches slice bytes_eq
longer_panics = refl

-- So a log line with that letter in front of a match makes `Update` panic.
abbrev pub search_tab_of : ℕ → Tab
search_tab_of source = record {
  title = text "s";
  node = [];
  lines = [];
  is_search = true;
  source_tab = source;
  query = text "x";
}

appending_panics :
    append_to_tab lower_longer
      (λ s q. true)
      bracket
      0
      (200 ∷ 186 ∷ b'x' ∷ [])
      (record { tabs = plain_tab (b'c' ∷ []) ∷ search_tab_of 0 ∷ []; active_tab = 0 })
    ≡ panic
unfolding append_to_tab propagate_to_search_tabs render_tab_lines render_line index_of has_prefix
    mark_matches slice bytes_eq
appending_panics = refl
