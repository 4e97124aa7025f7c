-- ===== src/Tests/Lifecycles.antt =====
-- The theorems on runs, joining members and answered requests at concrete inputs.
use navi_kv.Prelude.{panic}
use navi_kv.Raft.Invariant.{own_vote}
use navi_kv.Raft.Persistence.{restore, persist}
use navi_kv.Raft.Persistence.EarlyRestart.{early_restart_panics}
use navi_kv.Prelude.{◌≡◌, refl, true, false, [], ◌∷◌, arith, ◌>>=◌, Returns, All}
use navi_kv.Raft.Storage.{new_mem_storage}
use navi_kv.Raft.Invariant.{IsValid}
use navi_kv.Raft.Config.{new_member}
use navi_kv.Raft.Config.RoundTrip.{HasIdU64}
use navi_kv.Raft.Replication.{AppendEntriesResponse, handle_append_response}
use navi_kv.Raft.Replication.Acknowledging.{AckStep, handle_append_response_lem}
use navi_kv.Raft.Membership.{add_server}
use navi_kv.Raft.Membership.Joining.{AddStep, add_server_lem}
use navi_kv.Raft.Lifecycle.{all_named, new_server, start, stop}
use navi_kv.Raft.Lifecycle.FreshStart.{Fresh, start-new_server}
use navi_kv.Raft.Lifecycle.Running.{
  Node, NodeRun-IsValid, at_start, then_step, entries_received, stopped,
}
use navi_kv.Tests.Samples.{all_open, env, founders, node, replaces}
use navi_kv.Tests.Elections.{node-IsValid}
use navi_kv.Tests.Logs.{
  lead, lead-IsValid, recorder, no_room, after_append, after_append_lem, entries_storable,
}

founders_named : all_named founders ≡ true
unfolding all_named
founders_named = refl

start-new_server_example :
    Returns
      (Fresh founders (new_member 2 (b'b' ∷ [])))
      (new_server true founders 1 new_mem_storage >>= start true)
start-new_server_example =
    start-new_server founders 1 (new_member 2 (b'b' ∷ [])) founders_named refl

lead_ids : All HasIdU64 lead.cluster
lead_ids = (omega arith, (omega arith, (omega arith, tt)))

add_server_lem_example :
    Returns (λ r. AddStep 4 (b'd' ∷ []) lead r.0 r.1) (add_server 4 (b'd' ∷ []) lead)
add_server_lem_example = add_server_lem 4 (b'd' ∷ []) lead lead-IsValid lead_ids (omega arith)

abbrev success : AppendEntriesResponse
success = record { term = 2; success = true }

handle_append_response_lem_example :
    Returns (AckStep 2 replaces success lead) (handle_append_response env 2 replaces success lead)
handle_append_response_lem_example =
    handle_append_response_lem env 2 replaces success lead lead-IsValid (omega arith) (omega arith)

-- The node takes over entries and stops.
abbrev idle : Node recorder
idle = record { server = node; todo = []; machine = [] }

NodeRun-IsValid_example : IsValid (stop after_append.1)
NodeRun-IsValid_example =
    NodeRun-IsValid recorder {a = idle} {b = record idle { server = stop after_append.1 }}
      node-IsValid
      (then_step
        (then_step at_start
          (entries_received no_room env replaces after_append.0 after_append.1 after_append_lem))
        stopped)
      ((tt, entries_storable), tt)

node_vote : own_vote node ≡ 0
unfolding all_open
node_vote = refl

early_restart_panics_example : Returns (λ s'. restore s' ≡ panic) (persist false 0 node)
early_restart_panics_example =
    early_restart_panics node node-IsValid (omega arith) (omega (arith, node_vote)) (omega arith)
      refl
