-- ===== src/Console/Messages.antt =====
-- cmd/navi-cli/main.go: the messages of the console, that is `Update`. `edit` is what the input
-- widget does to its text at a key, `prompt` is the rendered prompt. The views of the tabs are left
-- out.
pub mod InRange
pub mod Updating
use navi_kv.Prelude.{
  ℕ, suc, ◌+◌, ◌-◌, ◌%◌, Bool, true, false, not, ◌&&◌, ◌||◌, Option, none, some, List, [], ◌∷◌,
  ◌++◌,
}
use navi_kv.Prelude.{
  ltb, leb, ◌==◌, if◌then◌else◌, length, get_elem?, ◌>>=◌, ◌>>◌, Outcome, ok, panic, or_panic,
  assert,
}
use navi_kv.Bytes.{Bytes, bytes_eq}
use navi_kv.Text.{text, to_decimal}
use navi_kv.Console.{Tab, Console, open_search_tab, close_search_tab, append_to_tab}
use navi_kv.Console.Modals.{
  Key, key_up, key_down, key_enter, key_esc, key_ctrl_c, key_tab, key_shift_tab, slash, other_key,
  update_kill_select, update_search_input,
}
use navi_kv.Console.Commands.{
  UiMode, mode_normal, mode_kill_select, mode_search_input, KillNodeInfo, Model, Effect, quit,
  blink, component, wait_for_log, stream_logs, kill_node, Step, say, only_say, cancel_session,
  run_command,
}

-- An error is its text.
pub data Message : Type 0 where
  window_size : ℕ → ℕ → Message
  key_pressed : Key → Message
  command_result : List Bytes → Message
  kill_nodes_loaded : List KillNodeInfo → Message
  node_killed : Bytes → Option Bytes → Message
  node_added : ℕ → ℕ → Option Bytes → Message
  cluster_started : Bytes → List ℕ → Bool → Option Bytes → Message
  cluster_stopped : Bool → Option Bytes → Message
  log_line : Bytes → Bytes → Bytes → Message
  other_message : Message

abbrev titled : Bytes → Bytes → Tab
titled title node = record {
  title = title;
  node = node;
  lines = [];
  is_search = false;
  source_tab = 0;
  query = [];
}

abbrev pub fixed_tabs : List Tab
fixed_tabs = titled (text "Console") [] ∷ titled (text "Errors/Warnings") [] ∷ []

abbrev node_name : ℕ → Bytes
node_name i = text "node" ++ to_decimal i

-- `initialModel`, of a terminal whose size is not known yet.
abbrev pub initial_model : Model
initial_model = record {
  input = [];
  history = [];
  console = record { tabs = fixed_tabs; active_tab = 0 };
  width = 0;
  height = 0;
  compose_path = [];
  node_ports = [];
  debug = false;
  log_session = none;
  next_session = 0;
  mode = mode_normal;
  kill_cursor = 0;
  kill_nodes = [];
  search_input = [];
}

-- The tabs of `count` nodes from `i` on, and the streams of their logs.
unfoldable pub node_tabs : ℕ → ℕ → List Tab
node_tabs ℕ.zero i = []
node_tabs (suc count) i = titled (node_name i) (node_name i) ∷ node_tabs count (suc i)

unfoldable pub streams : ℕ → ℕ → ℕ → List Effect
streams session ℕ.zero i = []
streams session (suc count) i =
    stream_logs session (text "kv-" ++ node_name i) (node_name i) ∷ streams session count (suc i)

-- `%v` of a list of ports.
abbrev separated : List ℕ → Bytes
separated [] = []
separated (p ∷ ps) = 32 ∷ (to_decimal p ++ separated ps)

abbrev show_ports : List ℕ → Bytes
show_ports [] = text "[]"
show_ports (p ∷ ps) = b'[' ∷ (to_decimal p ++ (separated ps ++ text "]"))

unfoldable pub node_tab_index : Bytes → List Tab → Option ℕ
node_tab_index node [] = none
node_tab_index node (t ∷ ts) =
    let rest = node_tab_index node ts in
    if bytes_eq t.node node then some 0 else (elim rest [ none ↦ none | some i ↦ some (suc i) ])

abbrev with_tabs : List Tab → ℕ → Model → Model
with_tabs tabs active m = record m { console = record { tabs = tabs; active_tab = active } }

module _ (error_style : Bytes → Bytes) (prompt : Bytes) (lower : Bytes → Bytes)
    (contains : Bytes → Bytes → Bool) (mark : Bytes → Bytes) (edit : Key → Bytes → Bytes)
    (compose_exists : Bool) where
  abbrev pub leave : Model → Step
  leave m = (m, cancel_session m.log_session ++ quit ∷ [])

  -- `% len(m.tabs)`
  abbrev pub turn : ℕ → Model → Outcome Step
  turn to m =
      if length m.console.tabs == 0
      then panic
      else ok (with_tabs m.console.tabs (to % length m.console.tabs) m, [])

  -- The line goes to `runCommand`.
  abbrev pub entered : Bytes → Model → Step
  entered line m =
      if length line == 0
      then (m, [])
      else run_command error_style compose_exists line (say (prompt ++ line) m)

  -- A key that is for the tab in front.
  abbrev pub tab_key : Key → Model → Step
  tab_key slash m = (record m { mode = mode_search_input; search_input = [] }, blink ∷ [])
  tab_key key m = (m, component ∷ [])

  abbrev pub console_key : Key → Model → Step
  console_key key_enter m = entered m.input (record m { input = [] })
  console_key key m = (record m { input = edit key m.input }, component ∷ [])

  abbrev pub general_key : Key → Model → Outcome Step
  general_key key_ctrl_c m = ok (leave m)
  general_key key_esc m = ok (leave m)
  general_key key_tab m = turn (m.console.active_tab + 1) m
  general_key key_shift_tab m = turn (m.console.active_tab + length m.console.tabs - 1) m
  general_key key m = ok (if m.console.active_tab == 0 then console_key key m else tab_key key m)

  abbrev pub is_esc : Key → Bool
  is_esc key_esc = true
  is_esc _ = false

  abbrev pub key_at : Key → Option Tab → Model → Outcome Step
  key_at key none m = panic
  key_at key (some t) m =
      if t.is_search && is_esc key
      then ok (record m { console = close_search_tab m.console.active_tab m.console }, [])
      else general_key key m

  -- A key in the normal mode. The tab in front is looked at unless it is the console.
  unfoldable pub update_normal : Key → Model → Outcome Step
  unfolding run_command
  update_normal key m =
      if m.console.active_tab == 0
      then general_key key m
      else key_at key (get_elem? m.console.tabs m.console.active_tab) m

  abbrev pub update_key : UiMode → Key → Model → Outcome Step
  update_key mode_normal key m = update_normal key m
  update_key mode_kill_select key m = update_kill_select key m
  update_key mode_search_input key m = update_search_input lower contains mark edit key m

  abbrev pub killed : Bytes → Option Bytes → Model → Step
  killed node none m = only_say (node ++ text " killed") m
  killed node (some e) m =
      only_say (error_style (text "kill " ++ (node ++ (text " failed: " ++ e)))) m

  abbrev stream_of : ℕ → Option ℕ → List Effect
  stream_of index none = []
  stream_of index (some session) = streams session 1 index

  abbrev pub node_joined : ℕ → ℕ → Option Bytes → Model → Step
  node_joined index port (some e) m = only_say (error_style (text "add-node failed: " ++ e)) m
  node_joined index port none m = (
    say (node_name index ++ (text " added: port " ++ to_decimal port))
        (record (with_tabs (m.console.tabs ++ node_tabs 1 index) m.console.active_tab m) {
          node_ports = m.node_ports ++ port ∷ [];
        }),
    stream_of index m.log_session,
  )

  -- The tabs are replaced; the active one keeps its position.
  abbrev pub started : Bytes → List ℕ → Bool → Option Bytes → Model → Step
  started path ports debug (some e) m = only_say (error_style (text "start-navi failed: " ++ e)) m
  started path ports debug none m = (
    say
        (text "cluster started: "
          ++ (to_decimal (length ports) ++ (text " node(s), ports " ++ show_ports ports)))
        (record (with_tabs (fixed_tabs ++ node_tabs (length ports) 1) m.console.active_tab m) {
          compose_path = path;
          node_ports = ports;
          debug = debug;
          log_session = some m.next_session;
          next_session = suc m.next_session;
        }),
    streams m.next_session (length ports) 1 ++ wait_for_log m.next_session ∷ [],
  )

  abbrev pub stopped : Bool → Option Bytes → Model → Step
  stopped reset (some e) m = only_say (error_style (text "stop failed: " ++ e)) m
  stopped reset none m = (
    say (text "cluster " ++ (if reset then text "reset" else text "stopped"))
        (record (with_tabs fixed_tabs 0 m) {
          log_session = none;
          compose_path = [];
          node_ports = [];
        }),
    cancel_session m.log_session,
  )

  -- `appendToTab` at an index that may be -1.
  abbrev pub append_at : Option ℕ → Bytes → Console → Outcome Console
  append_at none line c = ok c
  append_at (some idx) line c = append_to_tab lower contains mark idx line c

  abbrev pub is_trouble : Bytes → Bool
  is_trouble level = bytes_eq level (text "WARN") || bytes_eq level (text "ERROR")

  unfoldable pub logged : Bytes → Bytes → Bytes → Console → Outcome Console
  unfolding node_tab_index append_to_tab
  logged node level line c = do
    shown ← append_at (node_tab_index node c.tabs) line c
    if is_trouble level
        then append_to_tab lower contains mark 1 (b'[' ∷ (node ++ (text "] " ++ line))) shown
        else ok shown

  abbrev pub log_arrived : Option ℕ → Bytes → Bytes → Bytes → Model → Outcome Step
  log_arrived none node level line m = ok (m, [])
  log_arrived (some session) node level line m = do
    c ← logged node level line m.console
    ok (record m { console = c }, wait_for_log session ∷ [])

  unfoldable pub update : Message → Model → Outcome Step
  unfolding update_normal update_kill_select update_search_input node_tabs streams logged
  update (window_size w h) m = ok (record m { width = w; height = h }, [])
  update (key_pressed key) m = update_key m.mode key m
  update (command_result lines) m = ok (record m { history = m.history ++ lines }, [])
  update (kill_nodes_loaded nodes) m =
      ok (record m { mode = mode_kill_select; kill_nodes = nodes; kill_cursor = 0 }, [])
  update (node_killed node e) m = ok (killed node e m)
  update (node_added index port e) m = ok (node_joined index port e m)
  update (cluster_started path ports debug e) m = ok (started path ports debug e m)
  update (cluster_stopped reset e) m = ok (stopped reset e m)
  update (log_line node level line) m = log_arrived m.log_session node level line m
  update other_message m = ok (m, component ∷ [])
