-- ===== src/Raft/Replication/Rounds.antt =====
-- One round of the loop of `HandleAppendEntriesRequest`, step by step.
use navi_kv.Prelude.{take_front}
use navi_kv.Prelude.{ℕ, zero, suc, ◌+◌, ◌-◌, ◌≤◌, ◌<◌, ◌≡◌, refl, ap, ◌∙◌}
use navi_kv.Prelude.{true, false, none, some, List, [], ◌∷◌, ◌++◌, arith}
use navi_kv.Prelude.{leb, ◌==◌, Bool-cases}
use navi_kv.Prelude.{ok, Returns, Returns-map}
use navi_kv.Prelude.{length, get_elem?, take, replicate, All, length-append}
use navi_kv.Prelude.{inl, inr, append-nil}
use navi_kv.Prelude.{All-append}
use navi_kv.Raft.State.{ClusterMember, Entry, Server}
use navi_kv.Raft.Config.{is_config_change_command}
use navi_kv.Raft.Cluster.{rebuild_cluster_from_log}
use navi_kv.Raft.Cluster.Rebuild.{
  merge_entry_total, resolve_cluster_index-IsPlaced, Rebuilt, rebuild_cluster_lem,
}
use navi_kv.Raft.Invariant.{IsValid, IsStorableEntry, IsPlaced-append}
use navi_kv.Raft.Replication.{recopied, make_room, cut_conflict, place_entry, merge_appended}
use navi_kv.Raft.Replication.Reconcile.{kept}

-- What the loop leaves alone.
pub record SameRest (s s' : Server) : Type 0 where
  pub current_term : s'.current_term ≡ s.current_term
  pub commit_index : s'.commit_index ≡ s.commit_index
  pub last_applied : s'.last_applied ≡ s.last_applied
  pub state : s'.state ≡ s.state
  pub id : s'.id ≡ s.id
  pub base : s'.base_cluster ≡ s.base_cluster

-- The fields that the loop may write.
SameRest-write :
    (s : Server) (l : List Entry) (c : List ClusterMember) (i : ℕ)
    → SameRest s (record s { log = l; cluster = c; cluster_index = i })
SameRest-write s l c i = record {
  current_term = refl;
  commit_index = refl;
  last_applied = refl;
  state = refl;
  id = refl;
  base = refl;
}

pub SameRest-refl : (s : Server) → SameRest s s
SameRest-refl s = SameRest-write s s.log s.cluster s.cluster_index

pub SameRest-trans : {s t u : Server} → SameRest s t → SameRest t u → SameRest s u
SameRest-trans a b = record {
  current_term = b.current_term ∙ a.current_term;
  commit_index = b.commit_index ∙ a.commit_index;
  last_applied = b.last_applied ∙ a.last_applied;
  state = b.state ∙ a.state;
  id = b.id ∙ a.id;
  base = b.base ∙ a.base;
}

-- A state of the loop: valid, with the given log.
pub record Holds (l : List Entry) (s s' : Server) : Type 0 where
  pub log : s'.log ≡ l
  pub valid : IsValid s'
  pub rest : SameRest s s'

-- Moving to a larger array copies the whole log, as the index is at most the log's length.
pub make_room_same : (spare i : ℕ) (s : Server) → i ≤ length s.log → make_room spare i s ≡ s
unfolding make_room
make_room_same spare i s h = elim (Bool-cases (leb (length s.log + spare) i)) [
  | inl full ↦
      let blank : Entry = record { command = []; term = 0; result = none } in
      let e : recopied i s.log ≡ s.log =
        take_front i s.log (replicate (i - length s.log) blank) (ground arith) in
      rw full (ap (λ l. record s { log = l }) e)
  | inr room ↦ rw room
]

pub get_elem?-front {ℓ} :
    {A : Type ℓ} (front back : List A) (i : ℕ)
    → i ≡ length front
    → get_elem? (front ++ back) i ≡ get_elem? back 0
get_elem?-front [] back zero h = refl
get_elem?-front [] back (suc i) h = absurd (omega arith)
get_elem?-front (x ∷ xs) back zero h = absurd (omega arith)
get_elem?-front (x ∷ xs) back (suc i) h = get_elem?-front xs back i (omega arith)

pub All-front {ℓ κ} :
    {A : Type ℓ} (P : A → Type κ) (front back : List A) → All P (front ++ back) → All P front
All-front P [] back h = tt
All-front P (x ∷ xs) back (p, h) = (p, All-front P xs back h)

-- `merge_appended` keeps a valid server valid, and its log.
pub merge_appended-Returns :
    (vote i : ℕ) (e : Entry) (s : Server)
    → IsValid s
    → IsStorableEntry e
    → Returns (Holds s.log s) (merge_appended vote i e s)
unfolding merge_appended
merge_appended-Returns vote i e s v storable =
    elim (Bool-cases (is_config_change_command e.command)) [
      | inl change ↦
          let (more, m) = merge_entry_total i s.id vote e.command s.cluster storable in
          let placed = IsPlaced-append s.id s.cluster more s.cluster_index v.placed in
          let r = resolve_cluster_index-IsPlaced (s.cluster ++ more) s.id s.cluster_index placed in
          rw (change, m, r)
            (record {
              log = refl;
              valid = record {
                placed = placed;
                rooted = v.rooted;
                started = v.started;
                storable = v.storable;
              };
              rest = SameRest-write s s.log (s.cluster ++ more) s.cluster_index;
            })
      | inr plain ↦ rw plain (record { log = refl; valid = v; rest = SameRest-refl s })
    ]

pub Holds-trans : {l k : List Entry} {s t u : Server} → Holds l s t → Holds k t u → Holds k s u
Holds-trans a b = record { log = b.log; valid = b.valid; rest = SameRest-trans a.rest b.rest }

module _ (front : List Entry) (i : ℕ) (at : i ≡ length front) where
  -- An entry behind the end of the log is appended, without its channel.
  pub place_new :
      (e : Entry) (s : Server)
      → IsValid s
      → s.log ≡ front
      → IsStorableEntry e
      → Returns (λ r. (r.0 ≡ 1) × Holds (front ++ kept e ∷ []) s r.1) (place_entry i e s)
  unfolding place_entry
  place_new e s v l storable =
      let none_here : get_elem? s.log i ≡ none =
        rw (l, ← append-nil front) (get_elem?-front front [] i at) in
      let n : length (s.log ++ kept e ∷ []) ≡ i + 1 =
        rw l (omega (arith, length-append front (kept e ∷ []))) in
      let test : (length (s.log ++ kept e ∷ []) == i + 1) ≡ true = ground (arith, n) in
      rw (none_here, test)
        (
          refl,
          record {
            log = ap (λ x. x ++ kept e ∷ []) l;
            valid = record {
              placed = v.placed;
              rooted = v.rooted;
              started = omega (arith, n);
              storable =
                  All-append IsStorableEntry s.log (kept e ∷ []) v.storable
                    (record { fits = storable.fits; decodes = storable.decodes }, tt);
            };
            rest = SameRest-write s (s.log ++ kept e ∷ []) s.cluster s.cluster_index;
          },
        )

  -- An entry that is there with the same term stays.
  pub place_old :
      (x e : Entry) (xs : List Entry) (s : Server)
      → IsValid s
      → s.log ≡ front ++ x ∷ xs
      → (x.term == e.term) ≡ true
      → Returns (λ r. (r.0 ≡ 0) × Holds (front ++ x ∷ xs) s r.1) (place_entry i e s)
  unfolding place_entry
  place_old x e xs s v l same =
      let here : get_elem? s.log i ≡ some x = rw l (get_elem?-front front (x ∷ xs) i at) in
      rw (here, same) (refl, record { log = l; valid = v; rest = SameRest-refl s })

  pub cut_none :
      (vote : ℕ) (e : Entry) (s : Server) → s.log ≡ front → cut_conflict vote i e s ≡ ok s
  unfolding cut_conflict
  cut_none vote e s l =
      let none_here : get_elem? s.log i ≡ none =
        rw (l, ← append-nil front) (get_elem?-front front [] i at) in
      rw none_here

  pub cut_same :
      (vote : ℕ) (x e : Entry) (xs : List Entry) (s : Server)
      → s.log ≡ front ++ x ∷ xs
      → (x.term == e.term) ≡ true
      → cut_conflict vote i e s ≡ ok s
  unfolding cut_conflict
  cut_same vote x e xs s l same =
      let here : get_elem? s.log i ≡ some x = rw l (get_elem?-front front (x ∷ xs) i at) in
      rw (here, same)

  -- A conflict cuts the log, and rebuilds the cluster.
  pub cut_other :
      (vote : ℕ) (x e : Entry) (xs : List Entry) (s : Server)
      → 0 < i
      → IsValid s
      → s.log ≡ front ++ x ∷ xs
      → (x.term == e.term) ≡ false
      → Returns (Holds front s) (cut_conflict vote i e s)
  unfolding cut_conflict
  cut_other vote x e xs s pos v l other =
      let here : get_elem? s.log i ≡ some x = rw l (get_elem?-front front (x ∷ xs) i at) in
      let cut : take i s.log ≡ front = rw l (take_front i front (x ∷ xs) at) in
      let storable : All IsStorableEntry front =
        All-front IsStorableEntry front (x ∷ xs) (rw l at v.storable) in
      rw (here, other, cut)
        (Returns-map (Rebuilt vote (record s { log = front })) (Holds front s)
          (rebuild_cluster_from_log vote (record s { log = front }))
          (rebuild_cluster_lem vote (record s { log = front }) storable v.rooted)
          λ s' e' b. rw b.rest (record {
            log = refl;
            valid = record {
              placed = b.placed;
              rooted = v.rooted;
              started = omega arith;
              storable = storable;
            };
            rest = SameRest-write s front s'.cluster s'.cluster_index;
          }))
