-- ===== src/Tests/Screens.antt =====
-- Commands and messages of the console, and their theorems at concrete inputs.
use navi_kv.Prelude.{
  ℕ, ◌≡◌, refl, arith, true, false, none, some, Bool, get_elem?, List, [], ◌∷◌, ◌++◌, length,
  Outcome, panic, Returns,
}
use navi_kv.Prelude.Int.{pos}
use navi_kv.Bytes.{Bytes, bytes_eq, slice}
use navi_kv.Text.{
  text, fields, words, not_empty_words, parse_digits, parse_uint, atoi, digits, to_decimal,
}
use navi_kv.Console.Highlight.{index_of, has_prefix, render_line, render_tab_lines, mark_matches}
use navi_kv.Console.{append_to_tab, propagate_to_search_tabs}
use navi_kv.Console.Commands.{
  Model, Effect, start_cluster, parse_start, start_navi_command, stop_navi_command,
  reset_navi_command, handle_set, handle_get, add_node_command, run_named, run_command, bad_value,
}
use navi_kv.Console.Modals.{Key, key_tab, other_key, update_kill_select, update_search_input}
use navi_kv.Console.Messages.{
  Message, key_pressed, cluster_started, log_line, initial_model, fixed_tabs, node_tabs, streams,
  node_tab_index, update_normal, logged, update,
}
use navi_kv.Console.Messages.InRange.{InRange}
use navi_kv.Console.Messages.Updating.{update-InRange, started_panics}
use navi_kv.Console.Logs.{classify_level}
use navi_kv.Tests.Consoles.{same_text, lower_ascii, bracket, search_tab_of}

-- Opens the operations, for the runs.
unfoldable pub all_shown : ℕ
unfolding bytes_eq fields words not_empty_words parse_digits parse_uint atoi digits to_decimal
    parse_start start_navi_command stop_navi_command reset_navi_command handle_set handle_get
    add_node_command run_named run_command update_kill_select update_search_input node_tabs streams
    node_tab_index update_normal append_to_tab propagate_to_search_tabs index_of has_prefix
    render_line render_tab_lines mark_matches slice logged update
all_shown = 0

-- A key is appended to the text.
abbrev pub typed : Key → Bytes → Bytes
typed (other_key c) s = s ++ c ∷ []
typed _ s = s

-- `strings.Contains`, for the runs.
abbrev holds : Bytes → Bytes → Bool
holds s q = elim (index_of s q) [ none ↦ false | some i ↦ true ]

abbrev shown : Message → Model → Outcome (Model × List Effect)
shown = update same_text (text "navi> ") lower_ascii holds bracket typed false

three_nodes_started :
    run_command same_text false (text " start-navi  -n 3 --debug ") initial_model ≡ (
      record initial_model { history = text "starting 3-node cluster (debug)..." ∷ [] },
      start_cluster (pos 3) true ∷ [],
    )
unfolding all_shown
three_nodes_started = refl

not_running :
    run_command same_text false (text "set a b") initial_model
    ≡ (record initial_model { history = text "no cluster running" ∷ [] }, [])
unfolding all_shown
not_running = refl

bad_count : parse_start (text "-n" ∷ text "x" ∷ []) (pos 0) false ≡ bad_value (text "x")
unfolding all_shown
bad_count = refl

abbrev one_port : List ℕ
one_port = 2021 ∷ []

one_node_started :
    Returns
      (λ r. (length r.0.console.tabs ≡ 3) × (r.0.node_ports ≡ one_port))
      (shown (cluster_started (text "f") one_port false none) initial_model)
unfolding all_shown
one_node_started = (refl, refl)

-- A search in the tab of the errors, while logs come in.
abbrev tailing : Model
tailing = record initial_model {
  console = record { tabs = fixed_tabs ++ search_tab_of 1 ∷ []; active_tab = 2 };
  log_session = some 0;
}

tailing-InRange : InRange lower_ascii tailing
tailing-InRange = record {
  tabs = record { plain = refl; active = omega arith };
  texts = ((tt, λ h. refl), ((tt, λ h. refl), ((tt, λ h. refl), tt)));
  cursor = λ h. cc;
}

update-InRange_example :
    Returns
      (λ r. InRange lower_ascii r.0)
      (shown (log_line (text "node1") (text "WARN") (text "No Xid")) tailing)
update-InRange_example =
    update-InRange same_text (text "navi> ") lower_ascii holds bracket typed false
      (log_line (text "node1") (text "WARN") (text "No Xid")) tailing tailing-InRange (refl, refl)

followed :
    Returns
      (λ r.
        get_elem? r.0.console.tabs 2
        ≡ some (record (search_tab_of 1) { lines = text "[node1] No Xid" ∷ [] }))
      (shown (log_line (text "node1") (text "WARN") (text "No Xid")) tailing)
unfolding all_shown
followed = refl

-- Two search tabs are open, and the last one is active.
abbrev two_searches : Model
two_searches = record initial_model {
  console = record { tabs = fixed_tabs ++ search_tab_of 1 ∷ search_tab_of 1 ∷ []; active_tab = 3 };
}

started_panics_example :
    Returns
      (λ r. shown (key_pressed key_tab) r.0 ≡ panic)
      (shown (cluster_started (text "f") one_port false none) two_searches)
started_panics_example =
    started_panics same_text (text "navi> ") lower_ascii holds bracket typed false (text "f")
      one_port false key_tab two_searches refl (omega arith)

panics_are_errors : classify_level same_text (λ s t. bytes_eq s t) (text "panic") ≡ text "ERROR"
unfolding classify_level bytes_eq
panics_are_errors = refl
