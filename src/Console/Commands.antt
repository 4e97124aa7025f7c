-- ===== src/Console/Commands.antt =====
-- cmd/navi-cli/commands.go: the command line of the console. What a command does outside the model
-- (it runs docker, or asks the nodes over HTTP) is an `Effect` with what the closure captures.
-- `error_style` is the rendering of errors by lipgloss, and `compose_exists` whether `os.Stat`
-- finds the compose file.
pub mod Screen
use navi_kv.Prelude.{
  ℕ, suc, ◌+◌, Bool, true, false, not, ◌&&◌, ◌||◌, Option, none, some, List, [], ◌∷◌, ◌++◌,
}
use navi_kv.Prelude.{ltb, leb, ◌==◌, if◌then◌else◌, length, get_elem?}
use navi_kv.Prelude.Int.{ℤ, pos, negsuc}
use navi_kv.Bytes.{Bytes, bytes_eq}
use navi_kv.Text.{text, to_decimal, atoi, fields}
use navi_kv.Console.{Console}
use navi_kv.Console.Compose.{compose_file_name}

pub data UiMode : Type 0 where
  mode_normal mode_kill_select mode_search_input : UiMode

pub record KillNodeInfo : Type 0 where
  pub node : Bytes
  pub port : ℕ
  pub up : Bool

-- `logChan`, `logCtx` and `logCancel` are set and cleared together: they are one session with a
-- number.
pub record Model : Type 0 where
  pub input : Bytes
  pub history : List Bytes
  pub console : Console
  pub width : ℕ
  pub height : ℕ
  pub compose_path : Bytes
  pub node_ports : List ℕ
  pub debug : Bool
  pub log_session : Option ℕ
  pub next_session : ℕ
  pub mode : UiMode
  pub kill_cursor : ℕ
  pub kill_nodes : List KillNodeInfo
  pub search_input : Bytes

-- What an operation asks the runtime to do. `component` is what a widget returns.
pub data Effect : Type 0 where
  quit blink component : Effect
  cancel_logs wait_for_log : ℕ → Effect
  stream_logs : ℕ → Bytes → Bytes → Effect
  start_cluster : ℤ → Bool → Effect
  stop_cluster : Bytes → Effect
  reset_cluster : Bytes → Effect
  show_status list_nodes : List ℕ → Effect
  set_key : List ℕ → Bytes → Bytes → Effect
  get_key : List ℕ → Bytes → Bool → Effect
  spawn_node : List ℕ → Bool → Effect
  kill_node : Bytes → ℕ → Effect

abbrev pub Step : Type 0
Step = Model × List Effect

abbrev pub say : Bytes → Model → Model
say line m = record m { history = m.history ++ line ∷ [] }

abbrev pub only_say : Bytes → Model → Step
only_say line m = (say line m, [])

-- `m.logCancel()`, if there is one.
abbrev pub cancel_session : Option ℕ → List Effect
cancel_session none = []
cancel_session (some n) = cancel_logs n ∷ []

abbrev pub is_running : Option ℕ → Bool
is_running none = false
is_running (some n) = true

abbrev pub help_lines : List Bytes
help_lines =
    text
      "start-navi -n N [--debug]  start an N-node cluster (Note: you should start ODD number of nodes in one cluster.)"
    ∷ text "stop-navi                  stop the running cluster"
    ∷ text "reset-navi                 stop the cluster, drop volumes, delete .dat files"
    ∷ text "status                     show leader and per-node health"
    ∷ text "set KEY VALUE              write a key on the cluster leader"
    ∷ text "get KEY [--relaxed]        read a key (relaxed = local, possibly stale)"
    ∷ text "kill-node                  pick a node to kill (raft layer only; container stays up)"
    ∷ text "add-node                   spawn a new container and add it to the running cluster"
    ∷ text "help                       show this message"
    ∷ text "quit / exit                leave the CLI"
    ∷ []

-- The arguments of start-navi.
pub data StartArguments : Type 0 where
  parsed : ℤ → Bool → StartArguments
  no_value : StartArguments
  bad_value : Bytes → StartArguments

abbrev with_count : Bytes → Option ℤ → (ℤ → StartArguments) → StartArguments
with_count value none k = bad_value value
with_count value (some n) k = k n

-- The loop over the arguments; the value of `-n` is skipped.
unfoldable pub parse_start : List Bytes → ℤ → Bool → StartArguments
parse_start [] n debug = parsed n debug
parse_start (arg ∷ []) n debug =
    if bytes_eq arg (text "-n")
    then no_value
    else parsed n (if bytes_eq arg (text "--debug") then true else debug)
parse_start (arg ∷ value ∷ args) n debug =
    let counted = with_count value (atoi value) (λ n'. parse_start args n' debug) in
    let next =
      parse_start (value ∷ args) n (if bytes_eq arg (text "--debug") then true else debug) in
    if bytes_eq arg (text "-n") then counted else next

abbrev pub below_one : ℤ → Bool
below_one (pos n) = ltb n 1
below_one (negsuc n) = true

abbrev pub decimal_int : ℤ → Bytes
decimal_int (pos n) = to_decimal n
decimal_int (negsuc n) = b'-' ∷ to_decimal (suc n)

abbrev debug_suffix : Bool → Bytes
debug_suffix debug = if debug then text " (debug)" else []

module _ (error_style : Bytes → Bytes) (compose_exists : Bool) where
  abbrev pub start_parsed : Model → StartArguments → Step
  start_parsed m no_value = only_say (error_style (text "-n requires a value")) m
  start_parsed m (bad_value v) = only_say (error_style (text "invalid -n value: " ++ v)) m
  start_parsed m (parsed n debug) =
      if below_one n then only_say (error_style (text "usage: start-navi -n N [--debug]")) m else (
        say
            (text "starting "
              ++ (decimal_int n ++ (text "-node cluster" ++ (debug_suffix debug ++ text "..."))))
            m,
        start_cluster n debug ∷ [],
      )

  unfoldable pub start_navi_command : Model → List Bytes → Step
  unfolding parse_start
  start_navi_command m args =
      if is_running m.log_session
      then only_say (error_style (text "cluster already running (stop-navi first)")) m
      else start_parsed m (parse_start args (pos 0) false)

  unfoldable pub stop_navi_command : Model → Step
  stop_navi_command m =
      if length m.compose_path == 0
      then only_say (error_style (text "no cluster running")) m
      else (m, stop_cluster m.compose_path ∷ [])

  unfoldable pub reset_navi_command : Model → Step
  reset_navi_command m =
      if compose_exists
      then (m, reset_cluster compose_file_name ∷ [])
      else only_say (error_style (text "no cluster to reset")) m

  -- `requireRunningCluster`, and what goes on if there is one.
  abbrev pub if_running : Model → Step → Step
  if_running m go =
      if length m.node_ports == 0 then only_say (error_style (text "no cluster running")) m else go

  abbrev pub set_arguments : Model → List Bytes → Step
  set_arguments m (key ∷ value ∷ []) = (m, set_key m.node_ports key value ∷ [])
  set_arguments m _ = only_say (error_style (text "usage: set KEY VALUE")) m

  abbrev is_relaxed : List Bytes → Bool
  is_relaxed [] = false
  is_relaxed (a ∷ args) = bytes_eq a (text "--relaxed")

  abbrev pub get_arguments : Model → List Bytes → Step
  get_arguments m [] = only_say (error_style (text "usage: get KEY [--relaxed]")) m
  get_arguments m (key ∷ args) = (m, get_key m.node_ports key (is_relaxed args) ∷ [])

  unfoldable pub handle_set : Model → List Bytes → Step
  handle_set m args = if_running m (set_arguments m args)

  unfoldable pub handle_get : Model → List Bytes → Step
  handle_get m args = if_running m (get_arguments m args)

  unfoldable pub add_node_command : Model → Step
  add_node_command m =
      if_running m (say (text "adding new node...") m, spawn_node m.node_ports m.debug ∷ [])

  -- The switch on the name of the command.
  unfoldable pub run_named : Bytes → List Bytes → Model → Step
  unfolding start_navi_command stop_navi_command reset_navi_command handle_set handle_get
      add_node_command
  run_named name args m =
      if bytes_eq name (text "quit") || bytes_eq name (text "exit")
      then (m, cancel_session m.log_session ++ quit ∷ [])
      else if bytes_eq name (text "help")
      then (record m { history = m.history ++ help_lines }, [])
      else if bytes_eq name (text "start-navi")
      then start_navi_command m args
      else if bytes_eq name (text "stop-navi")
      then stop_navi_command m
      else if bytes_eq name (text "reset-navi")
      then reset_navi_command m
      else if bytes_eq name (text "status")
      then if_running m (m, show_status m.node_ports ∷ [])
      else if bytes_eq name (text "set")
      then handle_set m args
      else if bytes_eq name (text "get")
      then handle_get m args
      else if bytes_eq name (text "kill-node")
      then if_running m (m, list_nodes m.node_ports ∷ [])
      else if bytes_eq name (text "add-node")
      then add_node_command m
      else only_say (error_style (text "unknown command: " ++ (name ++ text " (try `help`)"))) m

  abbrev pub run_fields : List Bytes → Model → Step
  run_fields [] m = (m, [])
  run_fields (name ∷ args) m = run_named name args m

  unfoldable pub run_command : Bytes → Model → Step
  unfolding fields run_named
  run_command line m = run_fields (fields line) m
