-- ===== src/Console/Messages/InRange.antt =====
-- The messages of the console do not panic, and keep its positions in range.
use navi_kv.Prelude.{ℕ, ◌+◌, ◌-◌, ◌%◌, ◌<◌, ◌≡◌, sym, ◌∙◌, arith}
use navi_kv.Prelude.{Bool, true, false, ◌&&◌, [], ◌++◌}
use navi_kv.Prelude.{
  ltb, ◌==◌, if◌then◌else◌, length, get_elem?_in_range, Bool-cases, inl, inr, ok, Returns,
  Returns-bind, All,
}
use native.Mathlib.Nat.{mod-lt}
use navi_kv.Bytes.{Bytes}
use navi_kv.Console.{close_search_tab, open_search_tab}
use navi_kv.Console.Rendered.{KeepsLength, IsRenderable, close_search_tab-AllRenderable}
use navi_kv.Console.OnTabs.{OnTabs, open_search_tab-OnTabs, close_search_tab-OnTabs}
use navi_kv.Console.Commands.{
  UiMode, mode_normal, mode_kill_select, mode_search_input, Model, say, run_command,
}
use navi_kv.Console.Commands.Screen.{SameScreen, run_command-SameScreen}
use navi_kv.Console.Modals.{
  Key, key_up, key_down, key_enter, key_esc, key_ctrl_c, key_tab, key_shift_tab, slash, other_key,
  update_kill_select, update_search_input,
}
use navi_kv.Console.Messages.{
  turn, console_key, tab_key, is_esc, entered, general_key, update_key, update_normal,
}

-- The active tab is a tab, the first tab is no search tab, the lines and queries of the tabs keep
-- their lengths in small letters, and the cursor is on a node while one is selected.
pub record InRange (lower : Bytes → Bytes) (m : Model) : Type 0 where
  pub tabs : OnTabs m.console
  pub texts : All (IsRenderable lower) m.console.tabs
  pub cursor : m.mode ≡ mode_kill_select → m.kill_cursor < length m.kill_nodes

InRange-SameScreen :
    (lower : Bytes → Bytes) (m m' : Model) → SameScreen m m' → InRange lower m → InRange lower m'
InRange-SameScreen lower m m' s r = record {
  tabs = rw s.console r.tabs;
  texts = rw s.console r.texts;
  cursor = λ h. rw (s.kill_cursor, s.kill_nodes) (r.cursor (sym s.mode ∙ h));
}

kill_select-InRange :
    (lower : Bytes → Bytes) (key : Key) (m : Model)
    → m.kill_cursor < length m.kill_nodes
    → InRange lower m
    → Returns (λ r. InRange lower r.0) (update_kill_select key m)
unfolding update_kill_select
kill_select-InRange lower key_up m lt r = record {
  tabs = r.tabs;
  texts = r.texts;
  cursor = λ h. omega (arith, lt);
}
kill_select-InRange lower key_down m lt r =
    elim (Bool-cases (ltb m.kill_cursor (length m.kill_nodes - 1))) [
      | inl room ↦
          rw room (record { tabs = r.tabs; texts = r.texts; cursor = λ h. ground (arith, room) })
      | inr last ↦ rw last r
    ]
kill_select-InRange lower key_enter m lt r =
    let (target, here) = get_elem?_in_range m.kill_nodes m.kill_cursor lt in
    rw here (record { tabs = r.tabs; texts = r.texts; cursor = λ h. cc })
kill_select-InRange lower key_esc m lt r = record {
  tabs = r.tabs;
  texts = r.texts;
  cursor = λ h. cc;
}
kill_select-InRange lower key_ctrl_c m lt r = record {
  tabs = r.tabs;
  texts = r.texts;
  cursor = λ h. cc;
}
kill_select-InRange lower key_tab m lt r = r
kill_select-InRange lower key_shift_tab m lt r = r
kill_select-InRange lower slash m lt r = r
kill_select-InRange lower (other_key k) m lt r = r

in_tabs :
    (m : Model) (to : ℕ) → OnTabs m.console → to % length m.console.tabs < length m.console.tabs
in_tabs m to o =
    let some_tab : 0 < length m.console.tabs = omega (arith, o.active) in mod-lt to some_tab

module _ (error_style : Bytes → Bytes) (prompt : Bytes) (lower : Bytes → Bytes)
    (contains : Bytes → Bytes → Bool) (mark : Bytes → Bytes) (edit : Key → Bytes → Bytes)
    (compose_exists : Bool) where
  search_input-InRange :
      (key : Key) (m : Model)
      → InRange lower m
      → KeepsLength lower m.search_input
      → Returns (λ r. InRange lower r.0) (update_search_input lower contains mark edit key m)
  unfolding update_search_input
  search_input-InRange key_enter m r q =
      Returns-bind (λ c. OnTabs c × All (IsRenderable lower) c.tabs) (λ s. InRange lower s.0)
        (open_search_tab lower contains mark m.console.active_tab m.search_input m.console) _
        (open_search_tab-OnTabs lower contains mark m.console.active_tab m.search_input m.console
          r.tabs r.texts q)
        λ c e (on_tabs, texts). record { tabs = on_tabs; texts = texts; cursor = λ h. cc }
  search_input-InRange key_esc m r q = record { tabs = r.tabs; texts = r.texts; cursor = λ h. cc }
  search_input-InRange key_ctrl_c m r q = record {
    tabs = r.tabs;
    texts = r.texts;
    cursor = λ h. cc;
  }
  search_input-InRange key_up m r q = record { tabs = r.tabs; texts = r.texts; cursor = r.cursor }
  search_input-InRange key_down m r q = record { tabs = r.tabs; texts = r.texts; cursor = r.cursor }
  search_input-InRange key_tab m r q = record { tabs = r.tabs; texts = r.texts; cursor = r.cursor }
  search_input-InRange key_shift_tab m r q = record {
    tabs = r.tabs;
    texts = r.texts;
    cursor = r.cursor;
  }
  search_input-InRange slash m r q = record { tabs = r.tabs; texts = r.texts; cursor = r.cursor }
  search_input-InRange (other_key k) m r q = record {
    tabs = r.tabs;
    texts = r.texts;
    cursor = r.cursor;
  }

  turn-InRange :
      (to : ℕ) (m : Model)
      → InRange lower m
      → Returns
          (λ r. InRange lower r.0)
          (turn error_style prompt lower contains mark edit compose_exists to m)
  turn-InRange to m r =
      let some_tab : (length m.console.tabs == 0) ≡ false = ground (arith, r.tabs.active) in
      rw some_tab (record {
        tabs = record { plain = r.tabs.plain; active = in_tabs m to r.tabs };
        texts = r.texts;
        cursor = r.cursor;
      })

  entered-InRange :
      (line : Bytes) (m : Model)
      → InRange lower m
      → InRange lower (entered error_style prompt lower contains mark edit compose_exists line m).0
  entered-InRange line m r = elim (Bool-cases (length line == 0)) [
    | inl empty ↦ rw empty r
    | inr asked ↦
        let m' = say (prompt ++ line) m in
        rw asked (
          InRange-SameScreen lower m' (run_command error_style compose_exists line m').0
            (run_command-SameScreen error_style compose_exists line m')
            (record { tabs = r.tabs; texts = r.texts; cursor = r.cursor }))
  ]

  -- A key that is for the tab in front or for the input line.
  front-InRange :
      (key : Key) (m : Model)
      → InRange lower m
      → InRange lower
          (if m.console.active_tab == 0
            then console_key error_style prompt lower contains mark edit compose_exists key m
            else tab_key error_style prompt lower contains mark edit compose_exists key m).0
  front-InRange key m r = elim (Bool-cases (m.console.active_tab == 0)) [
    | inl first ↦ rw first (of_console key)
    | inr other ↦ rw other (of_tab key)
  ]
    where
      edited : (input : Bytes) → InRange lower (record m { input = input })
      edited input = record { tabs = r.tabs; texts = r.texts; cursor = r.cursor }

      of_console :
          (key : Key)
          → InRange lower
              (console_key error_style prompt lower contains mark edit compose_exists key m).0
      of_console key_enter = entered-InRange m.input (record m { input = [] }) (edited [])
      of_console key_up = edited _
      of_console key_down = edited _
      of_console key_esc = edited _
      of_console key_ctrl_c = edited _
      of_console key_tab = edited _
      of_console key_shift_tab = edited _
      of_console slash = edited _
      of_console (other_key k) = edited _

      of_tab :
          (key : Key)
          → InRange lower
              (tab_key error_style prompt lower contains mark edit compose_exists key m).0
      of_tab slash = record { tabs = r.tabs; texts = r.texts; cursor = λ h. cc }
      of_tab key_enter = r
      of_tab key_up = r
      of_tab key_down = r
      of_tab key_esc = r
      of_tab key_ctrl_c = r
      of_tab key_tab = r
      of_tab key_shift_tab = r
      of_tab (other_key k) = r

  general-InRange :
      (key : Key) (m : Model)
      → InRange lower m
      → Returns
          (λ r. InRange lower r.0)
          (general_key error_style prompt lower contains mark edit compose_exists key m)
  general-InRange key_ctrl_c m r = r
  general-InRange key_esc m r = r
  general-InRange key_tab m r = turn-InRange (m.console.active_tab + 1) m r
  general-InRange key_shift_tab m r =
      turn-InRange (m.console.active_tab + length m.console.tabs - 1) m r
  general-InRange key_enter m r = front-InRange key_enter m r
  general-InRange key_up m r = front-InRange key_up m r
  general-InRange key_down m r = front-InRange key_down m r
  general-InRange slash m r = front-InRange slash m r
  general-InRange (other_key k) m r = front-InRange (other_key k) m r

  normal-InRange :
      (key : Key) (m : Model)
      → InRange lower m
      → Returns
          (λ r. InRange lower r.0)
          (update_normal error_style prompt lower contains mark edit compose_exists key m)
  unfolding update_normal
  normal-InRange key m r =
      let (t, here) = get_elem?_in_range m.console.tabs m.console.active_tab r.tabs.active in
      elim (Bool-cases (m.console.active_tab == 0)) [
        | inl first ↦ rw first (general-InRange key m r)
        | inr other ↦
            rw (other, here)
              (closed_or_general (
                t.is_search
                && is_esc error_style prompt lower contains mark edit compose_exists key))
      ]
    where
      closed_or_general :
          (b : Bool)
          → Returns
              (λ r'. InRange lower r'.0)
              (if b
                then ok (record m { console = close_search_tab m.console.active_tab m.console }, [])
                else general_key error_style prompt lower contains mark edit compose_exists key m)
      closed_or_general true = record {
        tabs = close_search_tab-OnTabs m.console.active_tab m.console r.tabs;
        texts = close_search_tab-AllRenderable lower m.console.active_tab m.console r.texts;
        cursor = r.cursor;
      }
      closed_or_general false = general-InRange key m r

  pub key-InRange :
      (mode : UiMode) (key : Key) (m : Model)
      → m.mode ≡ mode
      → InRange lower m
      → KeepsLength lower m.search_input
      → Returns
          (λ r. InRange lower r.0)
          (update_key error_style prompt lower contains mark edit compose_exists mode key m)
  key-InRange mode_normal key m e r q = normal-InRange key m r
  key-InRange mode_kill_select key m e r q = kill_select-InRange lower key m (r.cursor e) r
  key-InRange mode_search_input key m e r q = search_input-InRange key m r q
