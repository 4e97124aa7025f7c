-- ===== src/Tests/Samples.antt =====
-- Concrete servers, messages and the opening of all that a run computes with.
use navi_kv.Prelude.{ℕ}
use navi_kv.Prelude.{false, none, List, [], ◌∷◌}
use navi_kv.Prelude.{Outcome, ok, panic}
use navi_kv.Bytes.{Bytes, to_le, of_le, get_u64, slice, bytes_eq}
use navi_kv.Raft.Storage.{new_mem_storage, seek, seek_to, read, write, grown}
use navi_kv.Raft.State.{ClusterMember, Entry, Server, Env, follower}
use navi_kv.Raft.State.{get_voted_for, set_voted_for, last_entry, last_index}
use navi_kv.Raft.Config.{
  new_member, is_config_change_command, encode_members, encode_config_change, decode_members,
  decode_config_change,
}
use navi_kv.Raft.Cluster.{
  has_id, new_members, merge_cluster_config, resolve_from, resolve_cluster_index, merge_entry,
  cluster_of_log,
}
use navi_kv.Raft.Cluster.{rebuild_cluster_from_log}
use navi_kv.Raft.Persistence.{
  page_of, encode_entries, write_state, persist, ensure_log, read_entries, restore_page, restore,
}
use navi_kv.Raft.Election.{
  RequestVoteRequest, reset_election_timeout, update_term, own_votes, timeout,
}
use navi_kv.Raft.Election.{
  vote_request, record_vote, handle_vote_response, log_ok, decide_vote, handle_request_vote,
}
use navi_kv.Raft.Election.{votes_missing, reset_cluster, become_leader}
use navi_kv.Raft.Replication.{AppendEntriesRequest, append_locked, append_commands, apply_commands}
use navi_kv.Raft.Replication.{
  append_request, update_member, handle_append_response, make_room, cut_conflict, place_entry,
}
use navi_kv.Raft.Replication.{
  merge_appended, append_round, append_loop, valid_previous_log, follow_commit, accept_entries,
}
use navi_kv.Raft.Replication.{follow_leader, handle_append_entries}
use navi_kv.Raft.Advance.{quorum_left, find_commit, leader_commit_index}
use navi_kv.Raft.Advance.{apply_entry, apply_next, advance_commit_index, heartbeat}
use navi_kv.Raft.Membership.{propose_members, add_server}
use navi_kv.Kv.{encode_command, decode_command, load, store, execute, apply}

-- Opens every operation, for the runs.
unfoldable pub all_open : ℕ
unfolding to_le of_le slice get_u64 bytes_eq seek seek_to read write grown get_voted_for
    set_voted_for last_entry last_index is_config_change_command encode_members encode_config_change
    decode_members decode_config_change has_id new_members merge_cluster_config resolve_from
    resolve_cluster_index merge_entry cluster_of_log rebuild_cluster_from_log page_of encode_entries
    write_state persist ensure_log read_entries restore_page restore reset_election_timeout
    update_term own_votes timeout vote_request record_vote handle_vote_response log_ok decide_vote
    handle_request_vote votes_missing reset_cluster become_leader append_locked append_commands
    apply_commands append_request update_member handle_append_response make_room cut_conflict
    place_entry merge_appended append_round append_loop valid_previous_log follow_commit
    accept_entries follow_leader handle_append_entries quorum_left find_commit leader_commit_index
    apply_entry apply_next advance_commit_index heartbeat propose_members add_server encode_command
    decode_command load store execute apply
all_open = 0

-- The value of a run that has returned.
abbrev pub value_of {ℓ} : {A : Type ℓ} → A → Outcome A → A
value_of d (ok a) = a
value_of d panic = d

abbrev pub env : Env
env = record { now = 1000; later = 1000; roll = 7 }

abbrev pub plain_entry : ℕ → Bytes → Entry
plain_entry t c = record { command = c; term = t; result = none }

abbrev pub founders : List ClusterMember
founders = new_member 1 (b'a' ∷ []) ∷ new_member 2 (b'b' ∷ []) ∷ new_member 3 (b'c' ∷ []) ∷ []

-- The server with id 2 of three, in term 2, with two entries behind the first.
abbrev pub node : Server
node = record {
  done = false;
  current_term = 2;
  log = plain_entry 0 [] ∷ plain_entry 1 (9 ∷ []) ∷ plain_entry 1 (8 ∷ []) ∷ [];
  id = 2;
  address = b'b' ∷ [];
  election_timeout = 500;
  heartbeat_ms = 300;
  heartbeat_timeout = 0;
  storage = new_mem_storage;
  base_cluster = founders;
  passive = false;
  commit_index = 1;
  last_applied = 1;
  state = follower;
  cluster = founders;
  cluster_index = 1;
  pending_config_change_index = 0;
  next_chan = 0;
}

abbrev pub vote_from_1 : RequestVoteRequest
vote_from_1 = record { term = 2; candidate_id = 1; last_log_index = 2; last_log_term = 1 }

abbrev pub vote_from_3 : RequestVoteRequest
vote_from_3 = record { term = 2; candidate_id = 3; last_log_index = 2; last_log_term = 1 }

-- A leader of term 2 replaces the entry at index 2 and appends one.
abbrev pub replaces : AppendEntriesRequest
replaces = record {
  term = 2;
  leader_id = 1;
  prev_log_index = 1;
  prev_log_term = 1;
  entries = plain_entry 2 (7 ∷ []) ∷ plain_entry 2 (6 ∷ []) ∷ [];
  leader_commit = 3;
}
