-- ===== src/Console/Ports.antt =====
-- The ports of the console are those of the nodes of the compose file, in order.
use navi_kv.Prelude.{
  ℕ, zero, suc, ◌+◌, ◌≡◌, refl, ap, ◌∙◌, arith, Bool, true, false, Option, none, some, List, [],
  ◌∷◌, ◌++◌, ◌⊎◌, inl, inr, ltb, map, length, Returns, Bool-cases,
}
use navi_kv.Prelude.Int.{ℤ, pos, negsuc}
use navi_kv.Bytes.{Bytes}
use navi_kv.Kv.Http.{Response}
use navi_kv.Console.Compose.{
  ComposeData, ComposeError, Generated, Added, host_port_of, generate_compose, add_compose_node,
  compose_nodes, cluster_string, generated, written,
}
use navi_kv.Console.Commands.{Model}
use navi_kv.Console.Modals.{Key}
use navi_kv.Console.Messages.{Message, node_added, update}
use navi_kv.Console.Status.{
  Send, RequestError, probe_leader_with_retry, wait_for_node_up, do_add_server,
}
use navi_kv.Console.Closures.{
  add_node_message, start_message, started_with, when_led, when_composed, when_up, announced,
}

-- The host ports of `count` nodes from node `i` on.
abbrev pub ports_from : ℕ → ℕ → List ℕ
ports_from zero i = []
ports_from (suc count) i = host_port_of i ∷ ports_from count (suc i)

-- The ports are those of the nodes 1, 2, ...
pub record IsNumbered (ports : List ℕ) : Type 0 where
  pub count : ℕ
  pub numbered : ports ≡ ports_from count 1

length-ports_from : (count i : ℕ) → length (ports_from count i) ≡ count
length-ports_from zero i = refl
length-ports_from (suc count) i = ap suc (length-ports_from count (suc i))

ports_from-append :
    (count i : ℕ) → ports_from count i ++ host_port_of (i + count) ∷ [] ≡ ports_from (suc count) i
ports_from-append zero i = let at : i + 0 ≡ i = omega arith in rw at refl
ports_from-append (suc count) i =
    let at : suc i + count ≡ i + suc count = omega arith in
    ap (λ ps. host_port_of i ∷ ps) (rw at at (ports_from-append count (suc i)))

-- One port more, of the next node.
next_port :
    (ports : List ℕ)
    → IsNumbered ports
    → IsNumbered (ports ++ host_port_of (suc (length ports)) ∷ [])
next_port ports h =
    let n : length ports ≡ h.count = ap length h.numbered ∙ length-ports_from h.count 1 in
    let at : 1 + h.count ≡ suc h.count = omega arith in
    record {
      count = suc h.count;
      numbered = rw (n, h.numbered) (rw at at (ports_from-append h.count 1));
    }

ports_of_nodes :
    (c : Bytes) (count i : ℕ)
    → map (λ node. node.host_port) (compose_nodes c count i) ≡ ports_from count i
unfolding compose_nodes
ports_of_nodes c zero i = refl
ports_of_nodes c (suc count) i = ap (λ ps. host_port_of i ∷ ps) (ports_of_nodes c count (suc i))

-- The end of add-node: a failure, or the next node on its port.
module _ {E : Type 0} (render : ComposeData → Option E) (show_compose : ComposeError E → Bytes)
    (show : RequestError → Bytes) (P : Message → Type 0) (ports : List ℕ)
    (failed : (e : Bytes) → P (node_added 0 0 (some e)))
    (joined : P (node_added (suc (length ports)) (host_port_of (suc (length ports))) none)) where
  -- What `AddComposeNode` returns is the next node.
  AddsNext : ComposeError E ⊎ Added → Type 0
  AddsNext (inl e) = Unit
  AddsNext (inr a) =
      (a.new_index ≡ suc (length ports)) × (a.new_port ≡ host_port_of (suc (length ports)))

  add_compose_node-AddsNext :
      (debug : Bool) → AddsNext (add_compose_node render (pos (length ports)) debug)
  unfolding add_compose_node AddsNext
  add_compose_node-AddsNext debug = elim (Bool-cases (ltb (length ports) 1)) [
    | inl few ↦ rw few tt
    | inr enough ↦ rw enough (of_written (render _) _ (refl, refl))
  ]
    where
      of_written : (e : Option E) (a : Added) → AddsNext (inr a) → AddsNext (written render e a)
      of_written none a h = h
      of_written (some e) a h = tt

  announced-P :
      (a : Added) (answer : RequestError ⊎ Response)
      → AddsNext (inr a)
      → P (announced render show_compose show a answer)
  unfolding AddsNext
  announced-P a (inl e) h = failed (show e)
  announced-P a (inr r) (index, port) = rw (index, port) joined

  when_up-P :
      (up : Bool) (send : Send) (a : Added) (leader : Option ℕ)
      → AddsNext (inr a)
      → P (when_up render show_compose show up send ports a leader)
  when_up-P false send a leader h = failed _
  when_up-P true send a none h = failed _
  when_up-P true send a (some leader) h =
      announced-P a (do_add_server send leader a.new_index a.node_address) h

  when_composed-P :
      (docker : Option Bytes) (k : Added → Message) (r : ComposeError E ⊎ Added)
      → AddsNext r
      → ((a : Added) → AddsNext (inr a) → P (k a))
      → P (when_composed render show_compose show docker k r)
  when_composed-P docker k (inl e) h next = failed _
  when_composed-P (some e) k (inr a) h next = failed _
  when_composed-P none k (inr a) h next = next a h

  when_led-P :
      (leader : Option ℕ) (msg : Message)
      → P msg
      → P (when_led render show_compose show ports leader msg)
  when_led-P none msg h = failed _
  when_led-P (some leader) msg h = h

  add_node_message-P :
      (send : Send) (first waits second : List Send) (last : Send) (docker : Option Bytes)
      (debug : Bool)
      → P (
          add_node_message render show_compose show send first waits second last docker ports debug)
  unfolding add_node_message
  add_node_message-P send first waits second last docker debug =
      when_led-P (probe_leader_with_retry send first ports) _ (
        when_composed-P docker _ (add_compose_node render (pos (length ports)) debug)
          (add_compose_node-AddsNext debug)
          λ a h.
            when_up-P (wait_for_node_up waits last a.new_port) last a
              (probe_leader_with_retry last second ports) h)

module _ {E : Type 0} (render : ComposeData → Option E) (show_compose : ComposeError E → Bytes)
    (show : RequestError → Bytes) (error_style : Bytes → Bytes) (prompt : Bytes)
    (lower : Bytes → Bytes) (contains : Bytes → Bytes → Bool) (mark : Bytes → Bytes)
    (edit : Key → Bytes → Bytes) (compose_exists : Bool) where
  -- Where `Update` of the message leaves the ports of the nodes.
  abbrev pub LeavesNumbered : Model → Message → Type 0
  LeavesNumbered m msg =
      Returns (λ r. IsNumbered r.0.node_ports)
        (update error_style prompt lower contains mark edit compose_exists msg m)

  -- The message of an add-node that was given these ports, however it ended.
  add_node-IsNumbered :
      (m : Model) (send : Send) (first waits second : List Send) (last : Send)
      (docker : Option Bytes) (debug : Bool)
      → IsNumbered m.node_ports
      → LeavesNumbered m (
          add_node_message render show_compose show send first waits second last docker m.node_ports
            debug)
  unfolding update
  add_node-IsNumbered m send first waits second last docker debug h =
      add_node_message-P render show_compose show (LeavesNumbered m) m.node_ports (λ e. h)
        (next_port m.node_ports h) send first waits second last docker debug

  started-IsNumbered :
      (m : Model) (debug : Bool) (docker : Option Bytes) (g : Generated)
      → IsNumbered g.ports
      → IsNumbered m.node_ports
      → LeavesNumbered m (started_with render show_compose show debug docker (inr g))
  unfolding update
  started-IsNumbered m debug none g ports h = ports
  started-IsNumbered m debug (some e) g ports h = h

  start_navi-IsNumbered :
      (m : Model) (n : ℤ) (debug : Bool) (docker : Option Bytes)
      → IsNumbered m.node_ports
      → LeavesNumbered m (start_message render show_compose show n debug docker)
  unfolding start_message generate_compose update
  start_navi-IsNumbered m (negsuc n) debug docker h = h
  start_navi-IsNumbered m (pos n) debug docker h = elim (Bool-cases (ltb n 1)) [
    | inl few ↦ rw few h
    | inr enough ↦ rw enough (of_written (render _))
  ]
    where
      nodes : ComposeData
      nodes = record { nodes = compose_nodes (cluster_string n) n 1; debug = debug }

      of_written :
          (e : Option E)
          → LeavesNumbered m (
              started_with render show_compose show debug docker
                (written render e (generated nodes)))
      of_written none =
          started-IsNumbered m debug docker (generated nodes)
            (record { count = n; numbered = ports_of_nodes (cluster_string n) n 1 }) h
      of_written (some e) = h

  -- If the ports of the console are those of the nodes 1, 2, ... of the compose file, they are so
  -- again when the message of a start-navi has arrived, or that of an add-node that was given these
  -- ports, however either ended.
  pub reports-IsNumbered :
      (m : Model)
      → IsNumbered m.node_ports
      → ((n : ℤ) (debug : Bool) (docker : Option Bytes)
          → LeavesNumbered m (start_message render show_compose show n debug docker))
        × ((send : Send) (first waits second : List Send) (last : Send) (docker : Option Bytes)
              (debug : Bool)
            → LeavesNumbered m (
                add_node_message render show_compose show send first waits second last docker
                  m.node_ports debug))
  reports-IsNumbered m h = (
    λ n debug docker. start_navi-IsNumbered m n debug docker h,
    λ send first waits second last docker debug.
        add_node-IsNumbered m send first waits second last docker debug h,
  )
