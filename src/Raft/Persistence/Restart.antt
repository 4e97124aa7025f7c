-- ===== src/Raft/Persistence/Restart.antt =====
-- What a restart keeps of the vote: `restore`, and the rebuild of the cluster at its end.
use navi_kv.Prelude.{ℕ, zero, suc, ◌+◌, ◌≡◌, refl, ap, ◌∙◌}
use navi_kv.Prelude.{true, Option, none, some, List, [], ◌∷◌, ◌++◌, arith}
use navi_kv.Prelude.{ltb, if◌then◌else◌, Bool-cases}
use navi_kv.Prelude.{Outcome, ok, ◌>>=◌, Ensures, Ensures-bind}
use navi_kv.Prelude.{All}
use navi_kv.Prelude.{inl, inr, append-nil, append_assoc}
use navi_kv.Bytes.{Bytes, get_u64}
use navi_kv.Raft.State.{ClusterMember, Entry, Server, get_voted_for, set_voted_for}
use navi_kv.Raft.Storage.{read}
use navi_kv.Raft.Config.{is_config_change_command, decode_config_change}
use navi_kv.Raft.Cluster.{new_members}
use navi_kv.Raft.Invariant.{IsPlaced-append}
use navi_kv.Raft.Cluster.Rebuild.{resolve_cluster_index_lem, resolve_cluster_index-IsPlaced}
use navi_kv.Raft.Cluster.{
  has_id, rebuild_cluster_from_log, cluster_of_log, merge_entry, merge_cluster_config,
}
use navi_kv.Raft.Cluster.{resolve_cluster_index}
use navi_kv.Raft.Invariant.{IsPlaced, own_vote, vote_at}
use navi_kv.Raft.Persistence.{seek_start, page_size, read_full}
use navi_kv.Raft.Persistence.{restore, restore_page, ensure_log, read_entries}

-- No member of the list has a vote, as in a cluster that `NewServer` is given.
abbrev pub NoVotes : List ClusterMember → Type 0
NoVotes = All (λ m. m.voted_for ≡ 0)

merge_entry_extends :
    (i self vote : ℕ) (command : Bytes) (cluster : List ClusterMember)
    → Ensures
        (λ c. (more : List ClusterMember) × (c ≡ cluster ++ more))
        (merge_entry i self vote command cluster)
unfolding merge_entry
merge_entry_extends i self vote command cluster =
    let P = λ (c : List ClusterMember). (more : List ClusterMember) × (c ≡ cluster ++ more) in
    elim (Bool-cases (is_config_change_command command)) [
      | inl change ↦ rw change (
          Ensures-bind P (decode_config_change command)
            (λ incoming. ok (merge_cluster_config cluster incoming (i + 1) self vote))
            λ incoming e c h. (new_members cluster (i + 1) self vote incoming, ground arith))
      | inr plain ↦ rw plain (λ c h. ([], ground (arith, append-nil cluster)))
    ]

cluster_of_log_extends :
    (i self vote : ℕ) (es : List Entry) (cluster : List ClusterMember)
    → Ensures
        (λ c. (more : List ClusterMember) × (c ≡ cluster ++ more))
        (cluster_of_log i self vote es cluster)
unfolding cluster_of_log
cluster_of_log_extends i self vote [] cluster c h = ([], ground (arith, append-nil cluster))
cluster_of_log_extends i self vote (e ∷ es) cluster c h =
    let P = λ (c : List ClusterMember). (more : List ClusterMember) × (c ≡ cluster ++ more) in
    Ensures-bind P (merge_entry i self vote e.command cluster) (cluster_of_log (suc i) self vote es)
      (λ c₁ e₁ c' h'.
        let (more, p) = merge_entry_extends i self vote e.command cluster c₁ e₁ in
        let (rest, q) = cluster_of_log_extends (suc i) self vote es c₁ c' h' in
        (more ++ rest, q ∙ ap (λ x. x ++ rest) p ∙ append_assoc cluster more rest))
      c h

vote_at-append :
    (n : ℕ) (ms more : List ClusterMember) (i : ℕ)
    → IsPlaced n ms i
    → vote_at (ms ++ more) i ≡ vote_at ms i
vote_at-append n [] more i h = absurd h
vote_at-append n (m ∷ ms) more zero h = refl
vote_at-append n (m ∷ ms) more (suc i) h = vote_at-append n ms more i h.1

vote_at-NoVotes : (ms : List ClusterMember) (i : ℕ) → NoVotes ms → vote_at ms i ≡ 0
vote_at-NoVotes [] i h = refl
vote_at-NoVotes (m ∷ ms) zero h = h.0
vote_at-NoVotes (m ∷ ms) (suc i) h = vote_at-NoVotes ms i h.1

module _ (n : ℕ) (base : List ClusterMember) (votes : NoVotes base)
    (rooted : has_id n base ≡ true) where
  -- A founding member that is found in an extended cluster has the vote of its founding entry.
  founder_vote :
      (more : List ClusterMember) (i : ℕ)
      → resolve_cluster_index (base ++ more) n ≡ ok i
      → vote_at (base ++ more) i ≡ 0
  founder_vote more i r =
      let (k, e, p) = resolve_cluster_index_lem base n rooted in
      let found =
        resolve_cluster_index-IsPlaced (base ++ more) n k (IsPlaced-append n base more k p) in
      let same : i ≡ k = ground (arith, r, found) in
      rw same (vote_at-append n base more k p ∙ vote_at-NoVotes base k votes)

  -- Whatever vote it is handed, a rebuild leaves a founding member without one.
  pub rebuild_forgets_vote :
      (vote : ℕ) (s : Server)
      → s.id ≡ n
      → s.base_cluster ≡ base
      → Ensures (λ s'. own_vote s' ≡ 0) (rebuild_cluster_from_log vote s)
  unfolding rebuild_cluster_from_log
  rebuild_forgets_vote vote s i b =
      Ensures-bind (λ s'. own_vote s' ≡ 0) (cluster_of_log 0 s.id vote s.log s.base_cluster)
        (λ c.
          resolve_cluster_index c s.id >>= λ k. ok (record s { cluster = c; cluster_index = k }))
        λ c e.
          let (more, p) = cluster_of_log_extends 0 s.id vote s.log s.base_cluster c e in
          Ensures-bind (λ s'. own_vote s' ≡ 0) (resolve_cluster_index c s.id)
            (λ k. ok (record s { cluster = c; cluster_index = k }))
            λ k r s' h.
              let c' : c ≡ base ++ more = p ∙ ap (λ x. x ++ more) b in
              let r' : resolve_cluster_index (base ++ more) n ≡ ok k = rw (c', i) at r in
              let v : vote_at c k ≡ 0 = rw c' (founder_vote more k r') in ground (arith, v)

  -- The tail of `restore`: the vote is read and the cluster rebuilt.
  abbrev rebuild_with_vote : Server → Outcome Server
  rebuild_with_vote s = do vote ← get_voted_for s; rebuild_cluster_from_log vote s

  tail_forgets_vote :
      (s : Server)
      → s.id ≡ n
      → s.base_cluster ≡ base
      → Ensures (λ s'. own_vote s' ≡ 0) (rebuild_with_vote s)
  tail_forgets_vote s i b =
      Ensures-bind (λ s'. own_vote s' ≡ 0) (get_voted_for s)
        (λ vote. rebuild_cluster_from_log vote s) λ vote e. rebuild_forgets_vote vote s i b

  ensure_log_same :
      (s : Server) → ((ensure_log s).id ≡ s.id) × ((ensure_log s).base_cluster ≡ s.base_cluster)
  unfolding ensure_log
  ensure_log_same s = ground arith

  set_voted_for_same :
      (v : ℕ) (s : Server)
      → Ensures (λ s'. (s'.id ≡ s.id) × (s'.base_cluster ≡ s.base_cluster)) (set_voted_for v s)
  unfolding set_voted_for
  set_voted_for_same v s s' e = ground arith

  -- `restore` behind its read of the page, with the vote that the page holds.
  abbrev read_log : ℕ → Server → Outcome Server
  read_log len s₁ = do
    (es, m) ← read_entries len (if ltb 0 len then seek_start page_size s₁.storage else s₁.storage)
    rebuild_with_vote (ensure_log (record s₁ { log = es; storage = m }))

  read_log_forgets_vote :
      (len : ℕ) (s : Server)
      → s.id ≡ n
      → s.base_cluster ≡ base
      → Ensures (λ s'. own_vote s' ≡ 0) (read_log len s)
  read_log_forgets_vote len s i b =
      Ensures-bind (λ s'. own_vote s' ≡ 0)
        (read_entries len (if ltb 0 len then seek_start page_size s.storage else s.storage))
        (λ r. rebuild_with_vote (ensure_log (record s { log = r.0; storage = r.1 })))
        λ r e.
          let s₂ : Server = record s { log = r.0; storage = r.1 } in
          let (i₂, b₂) = ensure_log_same s₂ in tail_forgets_vote (ensure_log s₂) (i₂ ∙ i) (b₂ ∙ b)

  restore_page_forgets_vote :
      (page : Option Bytes) (s : Server)
      → s.id ≡ n
      → s.base_cluster ≡ base
      → Ensures (λ s'. own_vote s' ≡ 0) (restore_page page s)
  unfolding restore_page
  restore_page_forgets_vote none s i b =
      let (i₂, b₂) = ensure_log_same s in tail_forgets_vote (ensure_log s) (i₂ ∙ i) (b₂ ∙ b)
  restore_page_forgets_vote (some page) s i b =
      let P = λ (s' : Server). own_vote s' ≡ 0 in
      Ensures-bind P (get_u64 page 0)
        (λ t. do
          v ← get_u64 page 8
          s₁ ← set_voted_for v (record s { current_term = t })
          len ← get_u64 page 16
          read_log len s₁)
        λ t e₁.
          Ensures-bind P (get_u64 page 8)
            (λ v. do
              s₁ ← set_voted_for v (record s { current_term = t })
              len ← get_u64 page 16
              read_log len s₁)
            λ v e₂.
              Ensures-bind P (set_voted_for v (record s { current_term = t }))
                (λ s₁. do len ← get_u64 page 16; read_log len s₁)
                λ s₁ e₃.
                  let (i₁, b₁) = set_voted_for_same v (record s { current_term = t }) s₁ e₃ in
                  Ensures-bind P (get_u64 page 16) (λ len. read_log len s₁)
                    λ len e₄. read_log_forgets_vote len s₁ (i₁ ∙ i) (b₁ ∙ b)

-- A restart loses the vote. Whatever the storage holds, the vote of the page included, a founding
-- member whose `restore` returns has no vote, though it is back in the term of the page.
pub restore_forgets_vote :
    (s s' : Server)
    → NoVotes s.base_cluster
    → has_id s.id s.base_cluster ≡ true
    → restore s ≡ ok s'
    → own_vote s' ≡ 0
unfolding restore
restore_forgets_vote s s' votes rooted e =
    let got = read page_size (seek_start 0 s.storage) in
    let s₁ : Server = record s { storage = got.1 } in
    Ensures-bind (λ s'. own_vote s' ≡ 0) (read_full page_size got.0) (λ page. restore_page page s₁)
      (λ page p. restore_page_forgets_vote s.id s.base_cluster votes rooted page s₁ refl refl) s' e
