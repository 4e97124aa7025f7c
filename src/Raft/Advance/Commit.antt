-- ===== src/Raft/Advance/Commit.antt =====
-- The commit index of a leader.
use navi_kv.Prelude.{ℕ, zero, suc, ◌+◌, ◌-◌, ◌*◌, ◌/◌, ◌≤◌, ◌<◌, ◌≡◌, ◌∙◌}
use navi_kv.Prelude.{true, false, not, ◌&&◌, ◌||◌, List, [], ◌∷◌, arith}
use navi_kv.Prelude.{ltb, leb, ◌==◌, if◌then◌else◌, Bool-cases}
use navi_kv.Prelude.{length}
use navi_kv.Prelude.{inl, inr}
use navi_kv.Raft.State.{ClusterMember, Entry, Server, is_leader}
use navi_kv.Raft.Advance.{quorum_left, find_commit, leader_commit_index}

-- How many members have the entry at `i`: those that have confirmed it, and the one at `index`, the
-- leader. Positions count from `j`.
unfoldable pub holders : ℕ → ℕ → ℕ → List ClusterMember → ℕ
holders i index j [] = 0
holders i index j (m ∷ ms) =
    (if leb i m.match_index || j == index then 1 else 0) + holders i index (suc j) ms

quorum_left-holders :
    (i index j q : ℕ) (ms : List ClusterMember)
    → quorum_left i index j q ms ≡ q - holders i index j ms
unfolding quorum_left holders
quorum_left-holders i index j q [] = omega arith
quorum_left-holders i index j q (m ∷ ms) =
    quorum_left-holders i index (suc j)
      (if not (q == 0) && (leb i m.match_index || j == index) then q - 1 else q) ms
    ∙ ground arith

-- More than half of the cluster has the entry at `i`.
abbrev pub HasQuorum : ℕ → List ClusterMember → ℕ → Type 0
HasQuorum index cluster i = length cluster < 2 * holders i index 0 cluster

quorum_test :
    (i index : ℕ) (cluster : List ClusterMember)
    → (quorum_left i index 0 (length cluster / 2 + 1) cluster == 0)
      ≡ ltb (length cluster) (2 * holders i index 0 cluster)
quorum_test i index cluster =
    rw (quorum_left-holders i index 0 (length cluster / 2 + 1) cluster) (ground arith)

-- `r` is the highest index above `commit` and up to `last` that a majority has, or `commit` where
-- there is none.
pub record IsHighest (index : ℕ) (cluster : List ClusterMember) (last commit r : ℕ) : Type 0 where
  pub grows : commit ≤ r
  pub held : commit < r → (r ≤ last) × HasQuorum index cluster r
  pub none_above : (k : ℕ) → r < k → k ≤ last → ¬ HasQuorum index cluster k

find_commit_lem :
    (last commit index : ℕ) (cluster : List ClusterMember)
    → IsHighest index cluster last commit (find_commit last commit index cluster)
unfolding find_commit
find_commit_lem zero commit index cluster = record {
  grows = omega arith;
  held = λ h. absurd (omega arith);
  none_above = λ k h l. absurd (omega arith);
}
find_commit_lem (suc i) commit index cluster = elim (Bool-cases (leb (suc i) commit)) [
  | inl done ↦ rw done (record {
    grows = omega arith;
    held = λ h. absurd (omega arith);
    none_above = λ k h l. absurd (ground arith);
  })
  | inr more ↦ elim (Bool-cases (ltb (length cluster) (2 * holders (suc i) index 0 cluster))) [
    | inl majority ↦
        rw (more, quorum_test (suc i) index cluster, majority)
          (record {
            grows = ground arith;
            held = λ h. (omega arith, ground arith);
            none_above = λ k h l. absurd (omega arith);
          })
    | inr minority ↦
        let ih = find_commit_lem i commit index cluster in
        rw (more, quorum_test (suc i) index cluster, minority)
          (record {
            grows = ih.grows;
            held = λ h. let (le, q) = ih.held h in (omega arith, q);
            none_above = λ k h l. below ih minority k h l;
          })
  ]
]
  where
    below :
        {r : ℕ}
        → IsHighest index cluster i commit r
        → ltb (length cluster) (2 * holders (suc i) index 0 cluster) ≡ false
        → (k : ℕ) → r < k
        → k ≤ suc i
        → ¬ HasQuorum index cluster k
    below ih minority k h l q = elim (Bool-cases (k == suc i)) [
      | inl last ↦
          let e : k ≡ suc i = ground arith in
          let q' : HasQuorum index cluster (suc i) = rw e at q in absurd (ground arith)
      | inr earlier ↦ ih.none_above k h (ground arith) q
    ]

-- The commit index of a leader becomes the highest index of its log that more than half of the
-- cluster has, the leader counted, and stays where no higher one is; any other server keeps its
-- own.
pub leader_commit_index_lem :
    (s : Server)
    → (is_leader s.state ≡ true
        → IsHighest s.cluster_index s.cluster
            (length s.log - 1)
            s.commit_index
            (leader_commit_index s))
      × (is_leader s.state ≡ false → leader_commit_index s ≡ s.commit_index)
unfolding leader_commit_index
leader_commit_index_lem s = (
  λ h. rw h (find_commit_lem (length s.log - 1) s.commit_index s.cluster_index s.cluster),
  λ h. rw h,
)

-- The terms of the entries play no part in it: with any other log of the same length the commit
-- index is the same, so entries of earlier terms are committed by counting their copies.
pub commit_ignores_terms :
    (s : Server) (log : List Entry)
    → length log ≡ length s.log
    → leader_commit_index (record s { log = log }) ≡ leader_commit_index s
unfolding leader_commit_index
commit_ignores_terms s log h = rw h
