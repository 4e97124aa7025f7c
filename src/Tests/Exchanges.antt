-- ===== src/Tests/Exchanges.antt =====
-- A leader and a follower at concrete inputs.
use navi_kv.Prelude.{◌≡◌, refl, arith, true, [], ◌∷◌, Returns}
use navi_kv.Raft.State.{Server}
use navi_kv.Raft.Invariant.{IsValid}
use navi_kv.Raft.Replication.CatchingUp.{exchange, catch_up, CanReach}
use navi_kv.Raft.Replication.CaughtUp.{CaughtUp, catch_up_lem}
use navi_kv.Raft.Replication.Reconcile.{terms}
use navi_kv.Tests.Samples.{all_open, env, node, plain_entry}
use navi_kv.Tests.Elections.{node-IsValid}
use navi_kv.Tests.Logs.{lead, lead-IsValid, no_room}

-- The member with id 1, which has only the first entry, and is in an earlier term.
abbrev behind : Server
behind = record node {
  id = 1;
  current_term = 1;
  cluster_index = 0;
  log = plain_entry 0 [] ∷ [];
  commit_index = 0;
  last_applied = 0;
}

behind-IsValid : IsValid behind
behind-IsValid = record {
  placed = refl;
  rooted = unfold all_open in refl;
  started = omega arith;
  storable = (node-IsValid.storable.0, tt);
}

can_reach : CanReach 0 2 lead behind
can_reach = record {
  leader_valid = lead-IsValid;
  follower_valid = behind-IsValid;
  member = _;
  there = refl;
  next = refl;
  in_log = omega arith;
  small = omega arith;
  obeys = refl;
}

catch_up_lem_example :
    Returns
      (λ r. (r.0 ≡ true) × CaughtUp 0 2 lead behind r.1.0 r.1.1)
      (catch_up (λ n. no_room) (λ n. env) 0 3 lead behind)
catch_up_lem_example = catch_up_lem (λ n. no_room) (λ n. env) 0 2 lead behind can_reach

-- The log of the follower after three exchanges.
behind_caught_up :
    Returns
      (λ r. terms r.1.1.log ≡ 0 ∷ 1 ∷ 1 ∷ [])
      (catch_up (λ n. no_room) (λ n. env) 0 3 lead behind)
unfolding all_open exchange catch_up
behind_caught_up = refl
