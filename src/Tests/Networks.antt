-- ===== src/Tests/Networks.antt =====
-- The theorems on the two transports at concrete inputs.
use navi_kv.Prelude.{◌≡◌, refl, if◌then◌else◌, not, ◌&&◌, none, some, true, false, [], ◌∷◌}
use navi_kv.Prelude.Int.{pos}
use navi_kv.Bytes.{Bytes, bytes_eq}
use navi_kv.Prelude.{ℕ}
use navi_kv.Raft.Rpc.{new_rpc_transport, dial, client_of}
use navi_kv.Raft.Rpc.Clients.{AreOpen, IsNew, CallRun, no_part, dialing, CallRun-AreOpen}
use navi_kv.Raft.Network.{
  MemoryNetwork, MemoryTransport, unreachable, partitioned_node, dropped_message, route, partition,
  heal, drop_link, undrop, new_memory_network, register, deliver, calls, World, routed, has,
  has_link, look_up,
}
use navi_kv.Raft.Network.Routing.{
  partition-heal, drop_link-undrop, gate_lem, touches, touches_partition, GateStep,
}

abbrev first : Bytes
first = b'a' ∷ []

abbrev second : Bytes
second = b'b' ∷ []

abbrev pair_of_nodes : MemoryNetwork
pair_of_nodes = register second 1 (register first 0 new_memory_network)

routes : route first second pair_of_nodes ≡ routed 1 (pos 0)
unfolding route has has_link look_up bytes_eq
routes = refl

partition-heal_example :
    (route first second (partition second pair_of_nodes) ≡ (
      if touches second first second
      then unreachable partitioned_node
      else route first second pair_of_nodes))
    × (route first second (heal second (partition second pair_of_nodes))
        ≡ route first second pair_of_nodes)
    × (route first second (heal second (partition first (partition second pair_of_nodes))) ≡ (
        if bytes_eq second first
        then route first second pair_of_nodes
        else route first second (partition first pair_of_nodes)))
unfolding has
partition-heal_example = partition-heal second first first second pair_of_nodes refl

drop_link-undrop_example :
    (route second first (drop_link first second pair_of_nodes) ≡ (
      if bytes_eq first second
        && bytes_eq second first
        && not (touches_partition second first pair_of_nodes)
      then unreachable dropped_message
      else route second first pair_of_nodes))
    × (route second first (undrop first second (drop_link first second pair_of_nodes))
        ≡ route second first (undrop first second pair_of_nodes))
drop_link-undrop_example = drop_link-undrop first second second first pair_of_nodes

abbrev open_gate : MemoryTransport
open_gate = record { address = first; server = some 0; paused = false; resume_ch = none }

gate_lem_example : GateStep 4 [] open_gate
gate_lem_example = gate_lem 4 [] open_gate (λ h. cc, λ h. refl)

-- A message to a paused transport waits for the channel of the pause.
abbrev world : World
world = record {
  network = pair_of_nodes;
  transports =
      open_gate ∷ record open_gate { address = second; paused = true; resume_ch = some 4 } ∷ [];
  closed = [];
  next_chan = 5;
}

held_back : deliver first second world ≡ calls (pos 0) (some 4) 0
unfolding deliver route has has_link look_up bytes_eq
held_back = refl

-- The client with the number of an address' first byte is connected to it.
abbrev owner_of : ℕ → Bytes
owner_of c = c ∷ []

a_dialed : CallRun owner_of new_rpc_transport (dial (b'a' ∷ []) (some b'a') new_rpc_transport).1
a_dialed = dialing (b'a' ∷ []) (some b'a') no_part (refl, tt)

CallRun-AreOpen_example :
    AreOpen owner_of (dial (b'a' ∷ []) (some b'a') new_rpc_transport).1
    × IsNew owner_of
        (b'a' ∷ [])
        (dial (b'a' ∷ []) (some b'a') new_rpc_transport).1
        (dial (b'a' ∷ []) none (dial (b'a' ∷ []) (some b'a') new_rpc_transport).1).0
CallRun-AreOpen_example =
    CallRun-AreOpen owner_of (b'a' ∷ []) none (record { kept = tt }) a_dialed tt

kept_client :
    (dial (b'a' ∷ []) none (dial (b'a' ∷ []) (some b'a') new_rpc_transport).1).0 ≡ some b'a'
unfolding dial client_of bytes_eq
kept_client = refl
