-- ===== src/Console/Commands/Screen.antt =====
-- No command changes the tabs or the mode of the console.
use navi_kv.Prelude.{◌≡◌, refl, Bool, true, false, ◌||◌, List, [], ◌∷◌, length, ◌==◌, if◌then◌else◌}
use navi_kv.Prelude.Int.{pos}
use navi_kv.Bytes.{Bytes, bytes_eq}
use navi_kv.Text.{text, fields}
use navi_kv.Console.Commands.{
  Model, Step, StartArguments, parsed, no_value, bad_value, is_running, below_one, parse_start,
  start_parsed, start_navi_command, stop_navi_command, reset_navi_command, if_running,
  set_arguments, get_arguments, handle_set, handle_get, add_node_command, run_named, run_fields,
  run_command,
}

-- What the screen shows of the model, but for the history.
pub record SameScreen (m m' : Model) : Type 0 where
  pub console : m'.console ≡ m.console
  pub mode : m'.mode ≡ m.mode
  pub kill_cursor : m'.kill_cursor ≡ m.kill_cursor
  pub kill_nodes : m'.kill_nodes ≡ m.kill_nodes

said : (m : Model) (history : List Bytes) → SameScreen m (record m { history = history })
said m history = record { console = refl; mode = refl; kill_cursor = refl; kill_nodes = refl }

unchanged : (m : Model) → SameScreen m m
unchanged m = said m m.history

SameScreen-if :
    (m : Model) (b : Bool) (x y : Step)
    → SameScreen m x.0
    → SameScreen m y.0
    → SameScreen m (if b then x else y).0
SameScreen-if m true x y h k = h
SameScreen-if m false x y h k = k

module _ (error_style : Bytes → Bytes) (compose_exists : Bool) where
  start_screen :
      (m : Model) (a : StartArguments)
      → SameScreen m (start_parsed error_style compose_exists m a).0
  start_screen m no_value = said m _
  start_screen m (bad_value v) = said m _
  start_screen m (parsed n debug) = SameScreen-if m (below_one n) _ _ (said m _) (said m _)

  set_screen :
      (m : Model) (args : List Bytes)
      → SameScreen m (set_arguments error_style compose_exists m args).0
  set_screen m [] = said m _
  set_screen m (key ∷ []) = said m _
  set_screen m (key ∷ value ∷ []) = unchanged m
  set_screen m (key ∷ value ∷ more ∷ args) = said m _

  get_screen :
      (m : Model) (args : List Bytes)
      → SameScreen m (get_arguments error_style compose_exists m args).0
  get_screen m [] = said m _
  get_screen m (key ∷ args) = unchanged m

  running_screen :
      (m : Model) (go : Step)
      → SameScreen m go.0
      → SameScreen m (if_running error_style compose_exists m go).0
  running_screen m go h = SameScreen-if m (length m.node_ports == 0) _ go (said m _) h

  named_screen :
      (name : Bytes) (args : List Bytes) (m : Model)
      → SameScreen m (run_named error_style compose_exists name args m).0
  unfolding run_named start_navi_command stop_navi_command reset_navi_command handle_set handle_get
      add_node_command
  named_screen name args m =
      SameScreen-if m (bytes_eq name (text "quit") || bytes_eq name (text "exit")) _ _ (unchanged m)
        (SameScreen-if m (bytes_eq name (text "help")) _ _ (said m _) (
          SameScreen-if m (bytes_eq name (text "start-navi")) _ _
            (SameScreen-if m (is_running m.log_session) _ _ (said m _)
              (start_screen m (parse_start args (pos 0) false)))
            (SameScreen-if m (bytes_eq name (text "stop-navi")) _ _
              (SameScreen-if m (length m.compose_path == 0) _ _ (said m _) (unchanged m))
              (SameScreen-if m (bytes_eq name (text "reset-navi")) _ _
                (SameScreen-if m compose_exists _ _ (unchanged m) (said m _))
                (SameScreen-if m (bytes_eq name (text "status")) _ _
                  (running_screen m _ (unchanged m))
                  (SameScreen-if m (bytes_eq name (text "set")) _ _
                    (running_screen m _ (set_screen m args))
                    (SameScreen-if m (bytes_eq name (text "get")) _ _
                      (running_screen m _ (get_screen m args))
                      (SameScreen-if m (bytes_eq name (text "kill-node")) _ _
                        (running_screen m _ (unchanged m))
                        (SameScreen-if m (bytes_eq name (text "add-node")) _ _
                          (running_screen m _ (said m _)) (said m _))))))))))

  fields_screen :
      (words : List Bytes) (m : Model)
      → SameScreen m (run_fields error_style compose_exists words m).0
  fields_screen [] m = unchanged m
  fields_screen (name ∷ args) m = named_screen name args m

  pub run_command-SameScreen :
      (line : Bytes) (m : Model) → SameScreen m (run_command error_style compose_exists line m).0
  unfolding run_command
  run_command-SameScreen line m = fields_screen (fields line) m
