-- ===== src/Raft/Membership/Joining.antt =====
-- navi/membership.go: the outcomes of `AddServer`.
use navi_kv.Prelude.{ℕ, zero, suc, ◌+◌, ◌≡◌, refl, ap, ◌∙◌, arith}
use navi_kv.Prelude.{Bool, true, false, not, ◌&&◌, some, List, [], ◌∷◌, ◌++◌}
use navi_kv.Prelude.{◌==◌, if◌then◌else◌, Bool-cases, inl, inr}
use navi_kv.Prelude.{ok, Returns, Returns-map, All, All-append, length, length-append}
use navi_kv.Bytes.{Bytes, IsU64}
use navi_kv.Raft.State.{ClusterMember, Server, get_voted_for, is_leader}
use navi_kv.Raft.Invariant.{
  IsValid, IsStorable, IsStorableEntry, IsPlaced, IsPlaced-append, IsValid-storage,
  get_voted_for-own_vote, own_vote,
}
use navi_kv.Raft.Config.{
  Encoded, EncodeError, payload, encode_error, encode_config_change, new_member,
}
use navi_kv.Raft.Config.RoundTrip.{HasIdU64, decode-encode}
use navi_kv.Raft.Cluster.{has_id, new_members, merge_cluster_config}
use navi_kv.Raft.Cluster.Rebuild.{resolve_cluster_index-IsPlaced}
use navi_kv.Raft.Persistence.Total.{persist_total}
use navi_kv.Raft.Replication.{append_locked}
use navi_kv.Raft.Membership.{
  AddServerResult, rejected, added, waits, encoding, invalid_server_id, apply_to_leader,
  config_change_in_progress, propose_members, propose_encoded, add_server,
}

-- The members that the cluster has already are not appended again.
new_members-known :
    (current : List ClusterMember) (next self vote : ℕ) (xs ys : List ClusterMember)
    → All (λ m. has_id m.id current ≡ true) xs
    → new_members current next self vote (xs ++ ys) ≡ new_members current next self vote ys
unfolding new_members
new_members-known current next self vote [] ys h = refl
new_members-known current next self vote (x ∷ xs) ys (known, h) =
    rw known (new_members-known current next self vote xs ys h)

has_id-cons :
    (x : ClusterMember) (ms xs : List ClusterMember)
    → All (λ m. has_id m.id ms ≡ true) xs
    → All (λ m. has_id m.id (x ∷ ms) ≡ true) xs
unfolding has_id
has_id-cons x ms [] h = tt
has_id-cons x ms (y ∷ ys) (known, h) = (ground (arith, known), has_id-cons x ms ys h)

members_known : (ms : List ClusterMember) → All (λ m. has_id m.id ms ≡ true) ms
unfolding has_id
members_known [] = tt
members_known (m ∷ ms) = (ground arith, unfold has_id in has_id-cons m ms ms (members_known ms))

pub has_id-IsPlaced :
    (n : ℕ) (ms : List ClusterMember) (i : ℕ) → IsPlaced n ms i → has_id n ms ≡ true
unfolding has_id
has_id-IsPlaced n [] i h = absurd h
has_id-IsPlaced n (m ∷ ms) zero h = ground arith
has_id-IsPlaced n (m ∷ ms) (suc i) (ne, h) = ground (arith, has_id-IsPlaced n ms i h)

-- The member as it joins, when the log has `n` entries.
abbrev pub joined : ℕ → Bytes → ℕ → ClusterMember
joined i a n = record { id = i; address = a; next_index = n + 1; match_index = 0; voted_for = 0 }

merge_joined :
    (ms : List ClusterMember) (i n self vote : ℕ) (a : Bytes)
    → has_id i ms ≡ false
    → has_id self ms ≡ true
    → merge_cluster_config ms (ms ++ new_member i a ∷ []) (n + 1) self vote
      ≡ ms ++ joined i a n ∷ []
unfolding merge_cluster_config
merge_joined ms i n self vote a new known =
    ap (λ l. ms ++ l)
      (new_members-known ms (n + 1) self vote ms (new_member i a ∷ []) (members_known ms)
        ∙ unfold new_members in rw new (rw other refl))
  where
    other : (i == self) ≡ false
    other = elim (Bool-cases (i == self)) [
      | inl same ↦
          let e : i ≡ self = ground arith in absurd (ground (arith, ap (λ x. has_id x ms) e))
      | inr differ ↦ differ
    ]

-- The server after it has proposed the member with the encoded cluster `p`, its storage left out.
abbrev proposed : ℕ → Bytes → Bytes → Server → Server
proposed i a p s = record s {
  log = s.log ++ record { command = p; term = s.current_term; result = some s.next_chan } ∷ [];
  next_chan = suc s.next_chan;
  cluster = s.cluster ++ joined i a (length s.log) ∷ [];
  pending_config_change_index = length s.log;
}

proposed-IsValid :
    (i : ℕ) (a p : Bytes) (s : Server) → IsValid s → IsStorable p → IsValid (proposed i a p s)
proposed-IsValid i a p s v h = record {
  placed = IsPlaced-append s.id s.cluster (joined i a (length s.log) ∷ []) s.cluster_index v.placed;
  rooted = v.rooted;
  started = omega (
    arith,
    v.started,
    length-append s.log
        (record { command = p; term = s.current_term; result = some s.next_chan } ∷ []),
  );
  storable =
      All-append IsStorableEntry s.log
        (record { command = p; term = s.current_term; result = some s.next_chan } ∷ []) v.storable
        (record { fits = h.fits; decodes = h.decodes }, tt);
}

-- What a call that is not refused leaves: it waits on a fresh channel, the log has the new cluster
-- as its last entry, that entry is the pending change, and the cluster has the member behind the
-- others.
pub record JoinStep (i : ℕ) (a : Bytes) (s : Server) (r : AddServerResult) (s' : Server)
    : Type 0 where
  pub waits_on : r ≡ waits s.next_chan
  pub log :
      (p : Bytes) × (encode_config_change (s.cluster ++ new_member i a ∷ []) ≡ payload p)
      × (s'.log
          ≡ s.log ++ record { command = p; term = s.current_term; result = some s.next_chan } ∷ [])
  pub pending : s'.pending_config_change_index ≡ length s.log
  pub cluster : s'.cluster ≡ s.cluster ++ joined i a (length s.log) ∷ []
  pub position : s'.cluster_index ≡ s.cluster_index
  pub valid : IsValid s'

propose_members_lem :
    (i : ℕ) (a p : Bytes) (s : Server)
    → IsValid s
    → has_id i s.cluster ≡ false
    → IsStorable p
    → encode_config_change (s.cluster ++ new_member i a ∷ []) ≡ payload p
    → Returns (λ r. JoinStep i a s r.0 r.1) (propose_members (s.cluster ++ new_member i a ∷ []) p s)
unfolding propose_members append_locked
propose_members_lem i a p s v new h e =
    let s₁ : Server = (append_locked p s).1 in
    let vote : get_voted_for s₁ ≡ ok (own_vote s) =
      unfold get_voted_for in get_voted_for-own_vote s v in
    let merged =
      merge_joined s.cluster i (length s.log) s.id (own_vote s) a new
        (has_id-IsPlaced s.id s.cluster s.cluster_index v.placed) in
    let placed =
      resolve_cluster_index-IsPlaced (s.cluster ++ joined i a (length s.log) ∷ []) s.id
        s.cluster_index
        (IsPlaced-append s.id s.cluster (joined i a (length s.log) ∷ []) s.cluster_index
          v.placed) in
    let w = proposed-IsValid i a p s v h in
    let (m, q) = persist_total true 1 (proposed i a p s) w in
    rw (vote, merged, placed, q)
      (record {
        waits_on = refl;
        log = (p, e, refl);
        pending = refl;
        cluster = refl;
        position = refl;
        valid = IsValid-storage (proposed i a p s) m w;
      })

-- Whether a member with the id may be added now.
abbrev pub may_add : ℕ → Server → Bool
may_add i s =
    not (i == 0)
    && (is_leader s.state && (s.pending_config_change_index == 0 && not (has_id i s.cluster)))

-- The answer where it may not. A member that is there already is no error.
abbrev pub early_answer : ℕ → Server → AddServerResult
early_answer i s =
    if i == 0
    then rejected invalid_server_id
    else if not (is_leader s.state)
    then rejected apply_to_leader
    else if not (s.pending_config_change_index == 0)
    then rejected config_change_in_progress
    else added

pub record AddStep (i : ℕ) (a : Bytes) (s : Server) (r : AddServerResult) (s' : Server)
    : Type 0 where
  pub early : may_add i s ≡ false → (r ≡ early_answer i s) × (s' ≡ s)
  pub too_large :
      may_add i s ≡ true
      → (e : EncodeError) → encode_config_change (s.cluster ++ new_member i a ∷ []) ≡ encode_error e
      → (r ≡ rejected (encoding e)) × (s' ≡ s)
  pub joins :
      may_add i s ≡ true
      → (p : Bytes) → encode_config_change (s.cluster ++ new_member i a ∷ []) ≡ payload p
      → JoinStep i a s r s'
  pub valid : IsValid s'

-- The guards in one test.
add_server_by_test :
    (i : ℕ) (a : Bytes) (s : Server)
    → add_server i a s ≡ (
        if may_add i s
        then propose_encoded
            (encode_config_change (s.cluster ++ new_member i a ∷ []))
            (s.cluster ++ new_member i a ∷ [])
            s
        else ok (early_answer i s, s))
unfolding add_server
add_server_by_test i a s = ground arith

proposed_by_encoding :
    (i : ℕ) (a : Bytes) (s : Server)
    → IsValid s
    → All HasIdU64 s.cluster
    → IsU64 i
    → may_add i s ≡ true
    → (r : Encoded) → encode_config_change (s.cluster ++ new_member i a ∷ []) ≡ r
    → Returns (λ r. AddStep i a s r.0 r.1) (propose_encoded r (s.cluster ++ new_member i a ∷ []) s)
proposed_by_encoding i a s v ids id may (encode_error x) e = record {
  early = λ h. cc;
  too_large = λ h y f. (ground (arith, e, f), refl);
  joins = λ h p f. cc;
  valid = v;
}
proposed_by_encoding i a s v ids id may (payload p) e =
    let (d, marked, fits) =
      decode-encode (s.cluster ++ new_member i a ∷ []) p
        (All-append HasIdU64 s.cluster (new_member i a ∷ []) ids (id, tt)) e in
    let storable : IsStorable p = record { fits = fits; decodes = λ h. rw d tt } in
    let new : has_id i s.cluster ≡ false = ground (arith, may) in
    Returns-map (λ r. JoinStep i a s r.0 r.1) (λ r. AddStep i a s r.0 r.1)
      (propose_members (s.cluster ++ new_member i a ∷ []) p s)
      (propose_members_lem i a p s v new storable e)
      λ r f step. record {
        early = λ h. cc;
        too_large = λ h y g. cc;
        joins = λ h q g. step;
        valid = step.valid;
      }

-- On a valid server whose members and whose new member have 64-bit ids, `AddServer` returns up to
-- its wait. A call that is refused by a guard, or whose cluster does not fit a log slot, changes
-- nothing. Any other appends one entry, and the cluster gains the one member behind those it has.
pub add_server_lem :
    (i : ℕ) (a : Bytes) (s : Server)
    → IsValid s
    → All HasIdU64 s.cluster
    → IsU64 i
    → Returns (λ r. AddStep i a s r.0 r.1) (add_server i a s)
add_server_lem i a s v ids id = elim (Bool-cases (may_add i s)) [
  | inl may ↦
      rw (add_server_by_test i a s, may)
        (proposed_by_encoding i a s v ids id may
          (encode_config_change (s.cluster ++ new_member i a ∷ [])) refl)
  | inr refused ↦
      rw (add_server_by_test i a s, refused)
        (record {
          early = λ h. (refl, refl);
          too_large = λ h y g. cc;
          joins = λ h q g. cc;
          valid = v;
        })
]
