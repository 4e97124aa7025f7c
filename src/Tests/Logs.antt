-- ===== src/Tests/Logs.antt =====
-- Runs of the replication, and its theorems at concrete inputs.
use navi_kv.Prelude.{ℕ, ◌<◌, ◌≡◌, refl}
use navi_kv.Prelude.{Bool, true, false, List, [], ◌∷◌, ◌++◌, map, arith}
use navi_kv.Prelude.{ok, panic, Returns}
use navi_kv.Prelude.{length, take, drop, replicate, All}
use navi_kv.Bytes.{Bytes}
use navi_kv.Raft.State.{Server, leader}
use navi_kv.Raft.Invariant.{IsValid, IsStorableEntry}
use navi_kv.Raft.Cluster.{rebuild_cluster_from_log}
use navi_kv.Raft.Cluster.Rebuild.{Rebuilt, rebuild_cluster_lem}
use navi_kv.Raft.Persistence.{persist}
use navi_kv.Raft.Persistence.Total.{persist_total}
use navi_kv.Raft.Storage.{MemStorage}
use navi_kv.Raft.Replication.{AppendEntriesResponse, handle_append_entries}
use navi_kv.Raft.Advance.{leader_commit_index}
use navi_kv.Raft.Replication.{apply_commands}
use navi_kv.Raft.Advance.{ApplyResult, applied, advance_commit_index}
use navi_kv.Raft.Replication.Handling.{AppendStep, handle_append_entries_lem}
use navi_kv.Raft.Replication.AcceptedLog.{accepted_log}
use navi_kv.Raft.Replication.Accept.{appended_log}
use navi_kv.Raft.Replication.Reconcile.{kept, agree, terms}
use navi_kv.Raft.Advance.Commit.{IsHighest, leader_commit_index_lem, commit_ignores_terms}
use navi_kv.Raft.Advance.Applying.{
  IsReplayed, AdvanceStep, advance_commit_index_lem, replay, effect,
}
use navi_kv.Raft.Replication.Submitting.{SubmitStep, apply_commands_lem, oversized_panics}
use navi_kv.Tests.Samples.{all_open, value_of, env, node, replaces, plain_entry}
use navi_kv.Tests.Elections.{byte_IsStorable, node-IsValid}

abbrev pub no_room : ℕ → ℕ
no_room i = 0

pub entries_storable : All IsStorableEntry replaces.entries
entries_storable = (byte_IsStorable 7 (omega arith), (byte_IsStorable 6 (omega arith), tt))

handle_append_entries_lem_example :
    Returns
      (λ r. AppendStep replaces node r.0 r.1)
      (handle_append_entries no_room env replaces node)
handle_append_entries_lem_example =
    handle_append_entries_lem no_room env replaces node node-IsValid entries_storable

abbrev pub after_append : AppendEntriesResponse × Server
after_append =
    value_of (record { term = 0; success = false }, node)
      (handle_append_entries no_room env replaces node)

pub after_append_lem : handle_append_entries no_room env replaces node ≡ ok after_append
unfolding all_open
after_append_lem = refl

after_append_success : after_append.0.success ≡ true
unfolding all_open
after_append_success = refl

after_append_log : terms after_append.1.log ≡ 0 ∷ 1 ∷ 2 ∷ 2 ∷ []
unfolding all_open
after_append_log = refl

after_append_commit : after_append.1.commit_index ≡ 3
unfolding all_open
after_append_commit = refl

accepted_log_example :
    (take 2 after_append.1.log ≡ take 2 node.log)
    × (take 2 (terms (drop 2 after_append.1.log)) ≡ 2 ∷ 2 ∷ [])
    × (agree (drop 2 node.log) replaces.entries ≡ true
        → after_append.1.log
          ≡ node.log ++ map kept (drop (length (drop 2 node.log)) replaces.entries))
    × (appended_log replaces after_append.1.log ≡ after_append.1.log)
accepted_log_example =
    accepted_log no_room env replaces node node-IsValid entries_storable after_append_lem
      after_append_success

persist_total_example : (m : MemStorage) × (persist true 2 node ≡ ok (record node { storage = m }))
persist_total_example = persist_total true 2 node node-IsValid

rebuild_cluster_lem_example : Returns (Rebuilt 1 node) (rebuild_cluster_from_log 1 node)
rebuild_cluster_lem_example = rebuild_cluster_lem 1 node node-IsValid.storable node-IsValid.rooted

-- The same server as the leader, whose entry at index 2 one of the others has confirmed.
abbrev pub lead : Server
lead = record node {
  state = leader;
  cluster =
      record { id = 1; address = b'a' ∷ []; next_index = 3; match_index = 2; voted_for = 2 }
      ∷ record { id = 2; address = b'b' ∷ []; next_index = 3; match_index = 0; voted_for = 2 }
      ∷ record { id = 3; address = b'c' ∷ []; next_index = 3; match_index = 0; voted_for = 0 }
      ∷ [];
}

pub lead-IsValid : IsValid lead
lead-IsValid = record {
  placed = (omega arith, refl);
  rooted = node-IsValid.rooted;
  started = node-IsValid.started;
  storable = node-IsValid.storable;
}

commits_two : leader_commit_index lead ≡ 2
unfolding all_open
commits_two = refl

leader_commit_index_lem_example :
    (true ≡ true → IsHighest 1 lead.cluster 2 1 (leader_commit_index lead))
    × (true ≡ false → leader_commit_index lead ≡ 1)
leader_commit_index_lem_example = leader_commit_index_lem lead

-- The entries are those of term 2, or of any other term.
commit_ignores_terms_example :
    leader_commit_index
      (record lead { log = plain_entry 0 [] ∷ plain_entry 2 [] ∷ plain_entry 2 [] ∷ [] })
    ≡ leader_commit_index lead
commit_ignores_terms_example =
    commit_ignores_terms lead (plain_entry 0 [] ∷ plain_entry 2 [] ∷ plain_entry 2 [] ∷ []) refl

-- A state machine that keeps the commands that it was given.
abbrev pub recorder : Bytes → List Bytes → ApplyResult Bool × List Bytes
recorder c seen = (applied c, c ∷ seen)

lead_in_range : leader_commit_index lead < length lead.log
unfolding all_open
lead_in_range = omega arith

nothing_applied : IsReplayed recorder [] lead []
unfolding replay effect
nothing_applied = refl

advance_commit_index_lem_example :
    Returns (λ r. AdvanceStep recorder [] lead r.1 r.2) (advance_commit_index recorder lead [])
advance_commit_index_lem_example =
    advance_commit_index_lem recorder [] lead [] lead_in_range nothing_applied

apply_commands_lem_example :
    Returns
      (λ r. SubmitStep ((5 ∷ []) ∷ (4 ∷ []) ∷ []) lead r.0 r.1)
      (apply_commands ((5 ∷ []) ∷ (4 ∷ []) ∷ []) lead)
apply_commands_lem_example =
    apply_commands_lem ((5 ∷ []) ∷ (4 ∷ []) ∷ []) lead lead-IsValid
      (byte_IsStorable 5 (omega arith), (byte_IsStorable 4 (omega arith), tt))

oversized_panics_example : apply_commands (replicate 113 0 ∷ []) lead ≡ panic
oversized_panics_example = oversized_panics (replicate 113 0) lead lead-IsValid refl (omega arith)
