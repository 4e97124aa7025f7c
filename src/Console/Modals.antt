-- ===== src/Console/Modals.antt =====
-- cmd/navi-cli/modals.go: the keys of the console while it shows the nodes to kill, or the search
-- input.
use navi_kv.Prelude.{
  ℕ, suc, ◌-◌, Bool, [], ◌∷◌, ltb, if◌then◌else◌, length, get_elem?, ◌>>=◌, Outcome, ok, or_panic,
}
use navi_kv.Bytes.{Bytes}
use navi_kv.Text.{text}
use navi_kv.Console.{open_search_tab}
use navi_kv.Console.Commands.{mode_normal, Model, component, kill_node, Step, only_say}

pub data Key : Type 0 where
  key_up key_down key_enter key_esc key_ctrl_c key_tab key_shift_tab slash : Key
  other_key : ℕ → Key

-- The node under the cursor.
abbrev kill_at : Model → Outcome Step
kill_at m = do
  target ← or_panic (get_elem? m.kill_nodes m.kill_cursor)
  ok (record m { mode = mode_normal }, kill_node target.node target.port ∷ [])

unfoldable pub update_kill_select : Key → Model → Outcome Step
update_kill_select key_up m = ok (record m { kill_cursor = m.kill_cursor - 1 }, [])
update_kill_select key_down m = ok (
  if ltb m.kill_cursor (length m.kill_nodes - 1)
      then record m { kill_cursor = suc m.kill_cursor }
      else m,
  [],
)
update_kill_select key_enter m = kill_at m
update_kill_select key_esc m =
    ok (only_say (text "kill-node cancelled") (record m { mode = mode_normal }))
update_kill_select key_ctrl_c m =
    ok (only_say (text "kill-node cancelled") (record m { mode = mode_normal }))
update_kill_select _ m = ok (m, [])

module _ (lower : Bytes → Bytes) (contains : Bytes → Bytes → Bool) (mark : Bytes → Bytes)
    (edit : Key → Bytes → Bytes) where
  -- The search for the text of the input. `openSearchTab` reads no mode and no input.
  abbrev pub search_for_input : Model → Outcome Step
  search_for_input m = do
    c ← open_search_tab lower contains mark m.console.active_tab m.search_input m.console
    ok (record m { mode = mode_normal; search_input = []; console = c }, [])

  unfoldable pub update_search_input : Key → Model → Outcome Step
  unfolding open_search_tab
  update_search_input key_enter m = search_for_input m
  update_search_input key_esc m = ok (record m { mode = mode_normal; search_input = [] }, [])
  update_search_input key_ctrl_c m = ok (record m { mode = mode_normal; search_input = [] }, [])
  update_search_input key m =
      ok (record m { search_input = edit key m.search_input }, component ∷ [])
