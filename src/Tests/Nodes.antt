-- ===== src/Tests/Nodes.antt =====
-- The answers of the nodes to the console, and the theorem on its ports at concrete inputs.
use navi_kv.Prelude.{
  ℕ, ◌≡◌, refl, true, false, none, some, Option, List, [], ◌∷◌, ltb, if◌then◌else◌,
}
use navi_kv.Prelude.Int.{pos}
use navi_kv.Bytes.{Bytes, bytes_eq}
use navi_kv.Text.{text, digits, to_decimal}
use navi_kv.Kv.Http.{ok_response, bad_request}
use navi_kv.Console.Compose.{
  ComposeData, ComposeError, raft_address, cluster_spec, cluster_parts, cluster_string,
  compose_nodes, generate_compose, add_compose_node,
}
use navi_kv.Console.Commands.{Model}
use navi_kv.Console.Messages.{node_added, command_result, initial_model}
use navi_kv.Console.Status.{
  get_method, post_method, Send, RequestError, probe_leader, probe_leader_with_retry, node_up,
  wait_for_node_up, do_set, do_kill, do_add_server, do_get,
}
use navi_kv.Console.Closures.{
  status_lines, kill_infos, status_message, set_message, get_message, killed_message,
  add_node_message, start_message,
}
use navi_kv.Console.Ports.{LeavesNumbered, reports-IsNumbered}
use navi_kv.Tests.Consoles.{same_text, whole_line}
use navi_kv.Tests.Screens.{typed}

-- Opens the operations, for the runs.
unfoldable all_asked : ℕ
unfolding bytes_eq digits to_decimal raft_address cluster_spec cluster_parts cluster_string
    compose_nodes generate_compose add_compose_node probe_leader probe_leader_with_retry node_up
    wait_for_node_up do_set do_kill do_add_server do_get status_lines kill_infos status_message
    set_message get_message killed_message add_node_message start_message
all_asked = 0

-- Node 2 leads, and node 1 refuses what is posted.
abbrev second_leads : Send
second_leads get_method port path = some (ok_response (text "1"))
second_leads post_method port path = some (if ltb port 2022 then bad_request else ok_response [])

abbrev any_error : RequestError → Bytes
any_error e = text "error"

abbrev any_compose_error : ComposeError ℕ → Bytes
any_compose_error e = text "error"

abbrev always_written : ComposeData → Option ℕ
always_written d = none

abbrev two_ports : List ℕ
two_ports = 2021 ∷ 2022 ∷ []

second_found : probe_leader second_leads two_ports ≡ some 2022
unfolding all_asked
second_found = refl

status_of_two :
    status_message same_text any_error second_leads two_ports
    ≡ command_result (text "node1 :2021  up" ∷ text "node2 :2022  up (leader)" ∷ [])
unfolding all_asked
status_of_two = refl

third_added :
    add_node_message always_written any_compose_error any_error second_leads [] [] [] second_leads
      none two_ports true
    ≡ node_added 3 2023 none
unfolding all_asked
third_added = refl

abbrev of_two : Model
of_two = record initial_model { node_ports = two_ports }

reports-IsNumbered_example :
    LeavesNumbered always_written any_compose_error any_error same_text [] same_text whole_line
      same_text typed false of_two
      (start_message always_written any_compose_error any_error (pos 3) true none)
    × LeavesNumbered always_written any_compose_error any_error same_text [] same_text whole_line
        same_text typed false of_two
        (add_node_message always_written any_compose_error any_error second_leads [] [] []
          second_leads none two_ports true)
reports-IsNumbered_example =
    let both =
      reports-IsNumbered always_written any_compose_error any_error same_text [] same_text
        whole_line same_text typed false of_two (record { count = 2; numbered = refl }) in
    (both.0 (pos 3) true none, both.1 second_leads [] [] [] second_leads none true)
