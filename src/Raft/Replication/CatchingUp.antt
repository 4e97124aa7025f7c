-- ===== src/Raft/Replication/CatchingUp.antt =====
-- A leader and a follower that exchange append requests and their answers.
use navi_kv.Prelude.{
  ℕ, zero, suc, ◌+◌, ◌-◌, ◌<◌, ◌≡◌, refl, arith, Bool, true, false, ◌&&◌, ◌||◌, some, List, [], ◌∷◌,
  ltb, leb, ◌==◌, if◌then◌else◌, sub64, u64_limit, Bool-cases, inl, inr, Outcome, ok, ◌>>=◌, length,
  get_elem?, take, drop, modify, All, All-take, All-drop, drop_all, length-take, length-drop,
  get_elem?_in_range,
}
use navi_kv.Raft.State.{ClusterMember, Entry, Server, Env, is_follower, is_candidate}
use navi_kv.Raft.Invariant.{IsValid, IsStorableEntry, IsPlaced-get_elem?}
use navi_kv.Raft.Replication.{
  AppendEntriesRequest, append_request, handle_append_entries, handle_append_response,
  max_append_entries_batch,
}

-- One request of the leader to its member at `i`, the handling of it by that member, and the
-- leader's handling of the answer; whether the request was accepted, and both servers.
unfoldable pub exchange : (ℕ → ℕ) → Env → ℕ → Server → Server → Outcome (Bool × (Server × Server))
exchange spare env i l f = do
  (address, req) ← append_request i l
  (rsp, f') ← handle_append_entries spare env req f
  l' ← handle_append_response env i req rsp l
  ok (rsp.success, (l', f'))

-- Exchanges until one is accepted, `rounds` at most; each has its own spare room and environment.
unfoldable pub catch_up :
    (ℕ → (ℕ → ℕ)) → (ℕ → Env) → ℕ → ℕ → Server → Server → Outcome (Bool × (Server × Server))
unfolding exchange
catch_up spare env i zero l f = ok (false, (l, f))
catch_up spare env i (suc rounds) l f = do
  (success, (l', f')) ← exchange (spare rounds) (env rounds) i l f
  let rest = catch_up spare env i rounds l' f'
  if success then ok (true, (l', f')) else rest

-- The entries of a request behind the entry at `prev`.
abbrev pub batch : List Entry → ℕ → List Entry
batch log prev = take max_append_entries_batch (drop (prev + 1) log)

-- A leader whose member at `i` has the next index `p + 1`, and that member, which takes requests of
-- the leader's term.
pub record CanReach (i p : ℕ) (l f : Server) : Type 0 where
  pub leader_valid : IsValid l
  pub follower_valid : IsValid f
  pub member : ClusterMember
  pub there : get_elem? l.cluster i ≡ some member
  pub next : member.next_index ≡ p + 1
  pub in_log : p < length l.log
  pub small : length l.log < u64_limit
  pub obeys :
      (ltb f.current_term l.current_term
        || (l.current_term == f.current_term && (is_follower f.state || is_candidate f.state)))
      ≡ true

abbrev pub request_at : ℕ → Server → ℕ → Entry → AppendEntriesRequest
request_at id l p prev = record {
  term = l.current_term;
  leader_id = id;
  prev_log_index = p;
  prev_log_term = prev.term;
  entries = batch l.log p;
  leader_commit = l.commit_index;
}

-- The request that the leader builds.
pub append_request_lem :
    (i p : ℕ) (l f : Server) (c : CanReach i p l f)
    → (id : ℕ) × (prev : Entry) × (append_request i l
        ≡ ok (c.member.address, request_at id l p prev))
unfolding append_request
append_request_lem i p l f c =
    let (prev, e) = get_elem?_in_range l.log p c.in_log in
    let (self, here, same) =
      IsPlaced-get_elem? l.id l.cluster l.cluster_index c.leader_valid.placed in
    let minus : sub64 c.member.next_index 1 ≡ p = omega (arith, c.next, c.in_log, c.small) in
    let all_entries : (if leb (p + 1) (length l.log - 1) then drop (p + 1) l.log else [])
        ≡ drop (p + 1) l.log =
      elim (Bool-cases (leb (p + 1) (length l.log - 1))) [
        | inl b ↦ rw b refl
        | inr b ↦ rw (b, drop_all (p + 1) l.log (ground (arith, b))) refl
      ] in
    (self.id, prev, rw (c.there, minus, e, here, c.next, all_entries) refl)

pub batch-IsStorable : (l : Server) (p : ℕ) → IsValid l → All IsStorableEntry (batch l.log p)
batch-IsStorable l p v =
    All-take IsStorableEntry max_append_entries_batch (drop (p + 1) l.log)
      (All-drop IsStorableEntry (p + 1) l.log v.storable)

pub last_sent-batch :
    (log : List Entry) (p : ℕ) → p < length log → p + length (batch log p) < length log
last_sent-batch log p h =
    omega (arith, length-take max_append_entries_batch (drop (p + 1) log), length-drop (p + 1) log)

pub get_elem?-modify :
    {A : Type 0} (xs : List A) (i : ℕ) (f : A → A) (a : A)
    → get_elem? xs i ≡ some a
    → get_elem? (modify xs i f) i ≡ some (f a)
get_elem?-modify [] i f a h = cc
get_elem?-modify (x ∷ xs) zero f a h = cc h
get_elem?-modify (x ∷ xs) (suc i) f a h = get_elem?-modify xs i f a h
