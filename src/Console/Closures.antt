-- ===== src/Console/Closures.antt =====
-- cmd/navi-cli/commands.go: what the commands do outside of `Update`, up to the message that they
-- return. `show` is the text of an error, `error_style` its rendering.
use navi_kv.Prelude.{
  ℕ, suc, Bool, true, false, Option, none, some, List, [], ◌∷◌, ◌++◌, ◌⊎◌, inl, inr,
}
use navi_kv.Prelude.{◌==◌, if◌then◌else◌, length}
use navi_kv.Prelude.Int.{ℤ, pos}
use navi_kv.Bytes.{Bytes}
use navi_kv.Text.{text, to_decimal}
use navi_kv.Kv.Http.{Response}
use navi_kv.Console.Compose.{
  ComposeData, ComposeError, Generated, Added, generate_compose, add_compose_node,
}
use navi_kv.Console.Commands.{KillNodeInfo}
use navi_kv.Console.Messages.{
  Message, command_result, kill_nodes_loaded, node_killed, node_added, cluster_started,
  cluster_stopped,
}
use navi_kv.Console.Status.{
  Send, RequestError, probe_leader, probe_leader_with_retry, no_leader, node_up, wait_for_node_up,
  do_set, do_kill, do_add_server, do_get,
}

abbrev node_of : ℕ → Bytes
node_of i = text "node" ++ to_decimal i

abbrev is_port : Option ℕ → ℕ → Bool
is_port none port = false
is_port (some leader) port = port == leader

-- The lines of the ports from node `i` on.
unfoldable pub status_lines : Send → Option ℕ → ℕ → List ℕ → List Bytes
unfolding node_up
status_lines send leader i [] = []
status_lines send leader i (port ∷ ports) =
    (node_of i
      ++ (text " :"
          ++ (to_decimal port
              ++ (text "  "
                  ++ ((if node_up send port then text "up" else text "down")
                      ++ (if is_port leader port then text " (leader)" else []))))))
    ∷ status_lines send leader (suc i) ports

unfoldable pub kill_infos : Send → ℕ → List ℕ → List KillNodeInfo
unfolding node_up
kill_infos send i [] = []
kill_infos send i (port ∷ ports) =
    record { node = node_of i; port = port; up = node_up send port } ∷ kill_infos send (suc i) ports

abbrev kill_message : Send → List ℕ → Message
kill_message send ports = kill_nodes_loaded (kill_infos send 1 ports)

module _ (error_style : Bytes → Bytes) (show : RequestError → Bytes) where
  abbrev no_leader_line : Option ℕ → List ℕ → List Bytes
  no_leader_line none ports = error_style (no_leader ports) ∷ []
  no_leader_line (some leader) ports = []

  unfoldable pub status_message : Send → List ℕ → Message
  unfolding status_lines probe_leader
  status_message send ports =
      let leader = probe_leader send ports in
      command_result (status_lines send leader 1 ports ++ no_leader_line leader ports)

  abbrev answered : (Response → Bytes) → RequestError ⊎ Response → Message
  answered line (inl e) = command_result (error_style (show e) ∷ [])
  answered line (inr r) = command_result (line r ∷ [])

  abbrev at_leader : List ℕ → Option ℕ → (ℕ → Message) → Message
  at_leader ports none k = command_result (error_style (no_leader ports) ∷ [])
  at_leader ports (some leader) k = k leader

  unfoldable pub set_message : Send → List ℕ → Bytes → Bytes → Message
  unfolding probe_leader do_set
  set_message send ports key value = at_leader ports (probe_leader send ports) λ leader.
      answered (λ r. text "ok: " ++ (key ++ (text " = " ++ value))) (do_set send leader key value)

  unfoldable pub get_message : Send → List ℕ → Bytes → Bool → Message
  unfolding probe_leader do_get
  get_message send ports key relaxed =
      at_leader ports (probe_leader send ports)
        λ leader. answered (λ r. key ++ (text " = " ++ r.body)) (do_get send leader key relaxed)

  abbrev kill_error : RequestError ⊎ Response → Option Bytes
  kill_error (inl e) = some (show e)
  kill_error (inr r) = none

  unfoldable pub killed_message : Send → Bytes → ℕ → Message
  unfolding do_kill
  killed_message send node port = node_killed node (kill_error (do_kill send port))

-- What docker does is the error text of `ComposeUp`, if any.
module _ {E : Type 0} (render : ComposeData → Option E) (show_compose : ComposeError E → Bytes)
    (show : RequestError → Bytes) where
  abbrev pub failed_add : Bytes → Message
  failed_add e = node_added 0 0 (some e)

  abbrev pub announced : Added → RequestError ⊎ Response → Message
  announced a (inl e) = failed_add (show e)
  announced a (inr r) = node_added a.new_index a.new_port none

  abbrev pub announce : Send → List ℕ → Added → Option ℕ → Message
  announce send ports a none = failed_add (no_leader ports)
  announce send ports a (some leader) =
      announced a (do_add_server send leader a.new_index a.node_address)

  -- Whether the node has come up, and the second search for the leader.
  abbrev pub when_up : Bool → Send → List ℕ → Added → Option ℕ → Message
  when_up false send ports a leader =
      failed_add
        (node_of a.new_index ++ (text " did not come up on port " ++ to_decimal a.new_port))
  when_up true send ports a leader = announce send ports a leader

  abbrev pub when_composed : Option Bytes → (Added → Message) → ComposeError E ⊎ Added → Message
  when_composed docker k (inl e) = failed_add (show_compose e)
  when_composed (some e) k (inr a) = failed_add e
  when_composed none k (inr a) = k a

  abbrev pub when_led : List ℕ → Option ℕ → Message → Message
  when_led ports none k = failed_add (no_leader ports)
  when_led ports (some leader) k = k

  -- `first`, `second` and `waits` are what the nodes answer in the rounds of the three loops,
  -- `last` what they answer at the end.
  unfoldable pub add_node_message :
      Send → List Send → List Send → List Send → Send → Option Bytes → List ℕ → Bool → Message
  unfolding probe_leader_with_retry wait_for_node_up do_add_server
  add_node_message send first waits second last docker ports debug =
      when_led ports (probe_leader_with_retry send first ports) (
        when_composed docker
          (λ a.
            when_up (wait_for_node_up waits last a.new_port) last ports a
              (probe_leader_with_retry last second ports))
          (add_compose_node render (pos (length ports)) debug))

  abbrev pub started_with : Bool → Option Bytes → ComposeError E ⊎ Generated → Message
  started_with debug docker (inl e) = cluster_started [] [] debug (some (show_compose e))
  started_with debug docker (inr g) = cluster_started g.path g.ports debug docker

  unfoldable pub start_message : ℤ → Bool → Option Bytes → Message
  start_message n debug docker = started_with debug docker (generate_compose render n debug)

-- `.dat` files are removed besides.
abbrev pub stop_message : Option Bytes → Message
stop_message docker = cluster_stopped false docker

abbrev pub reset_message : Option Bytes → Message
reset_message docker = cluster_stopped true docker
