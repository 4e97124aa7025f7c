-- ===== src/Raft/Election/Leading.antt =====
-- `becomeLeader`.
use navi_kv.Prelude.{ℕ, zero, suc, ◌+◌, ◌-◌, ◌*◌, ◌<◌, ◌≡◌, refl, ap, ◌∙◌}
use navi_kv.Prelude.{true, ◌&&◌, none, List, [], ◌∷◌, ◌++◌, arith}
use navi_kv.Prelude.{ltb, ◌==◌, if◌then◌else◌, Bool-cases}
use navi_kv.Prelude.{Returns}
use navi_kv.Prelude.{length, length-append, map}
use navi_kv.Prelude.{inl, inr}
use navi_kv.Raft.State.{ClusterMember, Server, Env, leader}
use navi_kv.Raft.Invariant.{IsValid, own_vote, vote_at, IsPlaced}
use navi_kv.Raft.Invariant.{IsStorableEntry}
use navi_kv.Raft.Persistence.Total.{persist_total}
use navi_kv.Raft.Election.{become_leader}
use navi_kv.Raft.Election.{votes_missing, quorum_of, take_office, reset_cluster}
use navi_kv.Prelude.{All-append}
use navi_kv.Raft.Config.{is_config_change_command}

-- The votes for `self` that a cluster holds.
unfoldable pub votes_for : ℕ → List ClusterMember → ℕ
votes_for self [] = 0
votes_for self (m ∷ ms) = (if m.voted_for == self then 1 else 0) + votes_for self ms

-- The loop takes one from the quorum for each vote, and stops at 0.
votes_missing-votes_for :
    (self q : ℕ) (ms : List ClusterMember) → votes_missing self q ms ≡ q - votes_for self ms
unfolding votes_missing votes_for
votes_missing-votes_for self q [] = omega arith
votes_missing-votes_for self q (m ∷ ms) =
    votes_missing-votes_for self (if m.voted_for == self && ltb 0 q then q - 1 else q) ms
    ∙ ground arith

-- The majority that the loop looks for: more than half of the members vote for the server.
abbrev pub HasMajority : Server → Type 0
HasMajority s = length s.cluster < 2 * votes_for s.id s.cluster

majority :
    (s : Server)
    → (votes_missing s.id (quorum_of s.cluster) s.cluster == 0)
      ≡ ltb (length s.cluster) (2 * votes_for s.id s.cluster)
majority s =
    let e = votes_missing-votes_for s.id (quorum_of s.cluster) s.cluster in rw e (ground arith)

reset_cluster-IsPlaced :
    (next n : ℕ) (ms : List ClusterMember) (i : ℕ)
    → IsPlaced n ms i
    → IsPlaced n (reset_cluster next ms) i
unfolding reset_cluster
reset_cluster-IsPlaced next n [] i h = h
reset_cluster-IsPlaced next n (m ∷ ms) zero h = h
reset_cluster-IsPlaced next n (m ∷ ms) (suc i) (ne, h) = (ne, reset_cluster-IsPlaced next n ms i h)

vote_at-reset_cluster :
    (next : ℕ) (ms : List ClusterMember) (i : ℕ) → vote_at (reset_cluster next ms) i ≡ vote_at ms i
unfolding reset_cluster
vote_at-reset_cluster next [] i = refl
vote_at-reset_cluster next (m ∷ ms) zero = refl
vote_at-reset_cluster next (m ∷ ms) (suc i) = vote_at-reset_cluster next ms i

reset_cluster-map :
    (next : ℕ) (ms : List ClusterMember)
    → reset_cluster next ms
      ≡ map (λ (m : ClusterMember). record m { next_index = next; match_index = 0 }) ms
unfolding reset_cluster
reset_cluster-map next [] = refl
reset_cluster-map next (m ∷ ms) =
    ap (λ l. record m { next_index = next; match_index = 0 } ∷ l) (reset_cluster-map next ms)

-- A server in office: every member starts at the index behind the log that the election was won
-- with and has confirmed nothing, and the log has one more entry, the no-op of the term.
pub record InOffice (s s' : Server) : Type 0 where
  pub state : s'.state ≡ leader
  pub members :
      s'.cluster
      ≡ map
          (λ (m : ClusterMember). record m { next_index = length s.log + 1; match_index = 0 })
          s.cluster
  pub log : s'.log ≡ s.log ++ record { command = []; term = s.current_term; result = none } ∷ []

pub record LeaderStep (s s' : Server) : Type 0 where
  pub elected : HasMajority s → InOffice s s'
  pub idle : ¬ HasMajority s → s' ≡ s
  pub current_term : s'.current_term ≡ s.current_term
  pub vote : own_vote s' ≡ own_vote s
  pub valid : IsValid s'

take_office-IsValid : (s : Server) → IsValid s → IsValid (take_office s)
take_office-IsValid s v = record {
  placed = reset_cluster-IsPlaced (length s.log + 1) s.id s.cluster s.cluster_index v.placed;
  rooted = v.rooted;
  started = omega (
    arith,
    length-append s.log (record { command = []; term = s.current_term; result = none } ∷ []),
  );
  storable =
      All-append IsStorableEntry s.log
        (record { command = []; term = s.current_term; result = none } ∷ []) v.storable
        (record { fits = omega arith; decodes = λ h. unfold is_config_change_command in cc }, tt);
}

-- `becomeLeader` returns, and makes the server the leader exactly when more than half of its
-- cluster's members are recorded as voting for it.
pub become_leader_lem :
    (env : Env) (s : Server) → IsValid s → Returns (LeaderStep s) (become_leader env s)
unfolding become_leader
become_leader_lem env s v =
    elim (Bool-cases (ltb (length s.cluster) (2 * votes_for s.id s.cluster))) [
      | inl won ↦
          let (m, e) = persist_total true 1 (take_office s) (take_office-IsValid s v) in
          rw (majority s, won, e)
            (record {
              elected = λ h. record {
                state = refl;
                members = reset_cluster-map (length s.log + 1) s.cluster;
                log = refl;
              };
              idle = λ h. absurd (h (ground arith));
              current_term = refl;
              vote = vote_at-reset_cluster (length s.log + 1) s.cluster s.cluster_index;
              valid =
                  let t = take_office-IsValid s v in
                  record {
                    placed = t.placed;
                    rooted = t.rooted;
                    started = t.started;
                    storable = t.storable;
                  };
            })
      | inr lost ↦
          rw (majority s, lost)
            (record {
              elected = λ h. absurd (ground arith);
              idle = λ h. refl;
              current_term = refl;
              vote = refl;
              valid = v;
            })
    ]
