-- ===== src/Raft/Replication/Acknowledging.antt =====
-- The answers to append requests.
use navi_kv.Prelude.{ℕ, zero, suc, ◌+◌, ◌-◌, ◌<◌, max, ◌≡◌, refl, ap, ◌∙◌, arith}
use navi_kv.Prelude.{Bool, true, false, not, ◌&&◌, ◌||◌}
use navi_kv.Prelude.{ltb, ◌==◌, if◌then◌else◌, add64, sub64, u64_limit, Bool-cases, inl, inr}
use navi_kv.Prelude.{
  Outcome, ok, Returns, Returns-bind, length, modify, get_elem?, some, List, [], ◌∷◌,
}
use navi_kv.Raft.State.{ClusterMember, Server, Env, is_leader}
use navi_kv.Raft.Invariant.{IsValid, IsPlaced-modify}
use navi_kv.Raft.Election.{update_term}
use navi_kv.Raft.Election.Terms.{TermStep, update_term-Returns, update_term_same}
use navi_kv.Raft.Replication.{
  AppendEntriesRequest, AppendEntriesResponse, accepted, backed_off, update_member,
  handle_append_response,
}

-- A member whose log is known to agree up to index `n`.
abbrev pub agreed_up_to : ℕ → ClusterMember → ClusterMember
agreed_up_to n m = record m { next_index = n + 1; match_index = n }

-- The index before `n`: 1 at least, and 2 ^ 64 - 1 behind 0.
abbrev pub one_back : ℕ → ℕ
one_back n = if n == 0 then u64_limit - 1 else max (n - 1) 1

-- A member that is sent one entry more.
abbrev pub stepped_back : ClusterMember → ClusterMember
stepped_back m = record m { next_index = one_back m.next_index }

modify-at :
    (f g : ClusterMember → ClusterMember) (ms : List ClusterMember) (i : ℕ) {m : ClusterMember}
    → get_elem? ms i ≡ some m
    → f m ≡ g m
    → modify ms i f ≡ modify ms i g
modify-at f g [] i h e = refl
modify-at f g (x ∷ ms) zero {m} h e = let same : x ≡ m = cc in ap (λ y. y ∷ ms) (rw same e)
modify-at f g (x ∷ ms) (suc i) h e = ap (λ l. x ∷ l) (modify-at f g ms i h e)

backed_off-stepped_back :
    (m : ClusterMember) → m.next_index < u64_limit → backed_off m ≡ stepped_back m
backed_off-stepped_back m h =
    let next : max (sub64 m.next_index 1) 1 ≡ one_back m.next_index = ground (arith, h) in
    ap (λ n. record m { next_index = n }) next

-- The index of the last entry of a request.
abbrev pub last_sent : AppendEntriesRequest → ℕ
last_sent req = req.prev_log_index + length req.entries

-- Whether an answer of no newer term is dropped.
abbrev pub is_stale : AppendEntriesRequest → AppendEntriesResponse → Server → Bool
is_stale req rsp s = not (rsp.term == req.term) && is_leader s.state

pub record AckStep (i : ℕ) (req : AppendEntriesRequest) (rsp : AppendEntriesResponse)
    (s s' : Server) : Type 0 where
  pub current_term : s'.current_term ≡ max s.current_term rsp.term
  pub agreed :
      ltb s.current_term rsp.term ≡ false
      → is_stale req rsp s ≡ false
      → rsp.success ≡ true
      → s'.cluster ≡ modify s.cluster i (agreed_up_to (last_sent req))
  pub refused :
      (m : ClusterMember)
      → get_elem? s.cluster i ≡ some m
      → m.next_index < u64_limit
      → ltb s.current_term rsp.term ≡ false
      → is_stale req rsp s ≡ false
      → rsp.success ≡ false
      → s'.cluster ≡ modify s.cluster i stepped_back
  pub stale : ltb s.current_term rsp.term ≡ false → is_stale req rsp s ≡ true → s' ≡ s
  pub log : s'.log ≡ s.log
  pub commit_index : s'.commit_index ≡ s.commit_index
  pub valid : IsValid s'

abbrev after_term :
    ℕ → AppendEntriesRequest → AppendEntriesResponse → Bool × Server → Outcome Server
after_term i req rsp r =
    if r.0 || (not (rsp.term == req.term) && is_leader r.1.state)
    then ok r.1
    else update_member i (if rsp.success then accepted req else backed_off) r.1

update-IsValid :
    (i : ℕ) (f : ClusterMember → ClusterMember) (s : Server)
    → ((m : ClusterMember) → (f m).id ≡ m.id)
    → IsValid s
    → IsValid (record s { cluster = modify s.cluster i f })
update-IsValid i f s keeps v = record {
  placed = IsPlaced-modify s.id f keeps s.cluster i s.cluster_index v.placed;
  rooted = v.rooted;
  started = v.started;
  storable = v.storable;
}

accepted_lem :
    (req : AppendEntriesRequest) (m : ClusterMember)
    → last_sent req + 1 < u64_limit
    → accepted req m ≡ agreed_up_to (last_sent req) m
accepted_lem req m h =
    let next : max (add64 (add64 req.prev_log_index (length req.entries)) 1) 1 ≡ last_sent req + 1 =
      omega (arith, h) in
    let matched : sub64 (last_sent req + 1) 1 ≡ last_sent req = omega (arith, h) in
    ap (λ n. record m { next_index = n; match_index = sub64 n 1 }) next
    ∙ ap (λ n. record m { next_index = last_sent req + 1; match_index = n }) matched

module _ (i : ℕ) (req : AppendEntriesRequest) (rsp : AppendEntriesResponse) (s : Server) where
  answer_of_term :
      IsValid s
      → i < length s.cluster
      → last_sent req + 1 < u64_limit
      → ltb s.current_term rsp.term ≡ false
      → Returns (AckStep i req rsp s) (after_term i req rsp (false, s))
  unfolding update_member
  answer_of_term v lt fits older =
      let room : ltb i (length s.cluster) ≡ true = ground arith in
      elim (Bool-cases (is_stale req rsp s)) [
        | inl late ↦ rw late (record {
          current_term = ground arith;
          agreed = λ h k g. cc;
          refused = λ m at small h k g. cc;
          stale = λ h k. refl;
          log = refl;
          commit_index = refl;
          valid = v;
        })
        | inr counts ↦ elim (Bool-cases rsp.success) [
          | inl success ↦
              rw (counts, success, room)
                (record {
                  current_term = ground arith;
                  agreed = λ h k g. ap (λ f. modify s.cluster i f) λ j m. accepted_lem req m fits j;
                  refused = λ m at small h k g. cc;
                  stale = λ h k. cc;
                  log = refl;
                  commit_index = refl;
                  valid = update-IsValid i (accepted req) s (λ m. refl) v;
                })
          | inr failure ↦
              rw (counts, failure, room)
                (record {
                  current_term = ground arith;
                  agreed = λ h k g. cc;
                  refused = λ m here small h k g.
                      modify-at backed_off stepped_back s.cluster i here
                        (backed_off-stepped_back m small);
                  stale = λ h k. cc;
                  log = refl;
                  commit_index = refl;
                  valid = update-IsValid i backed_off s (λ m. refl) v;
                })
        ]
      ]

-- On a valid server, the answer to an append request whose last index is below 2 ^ 64 - 1, for a
-- member that is there, does not panic. A newer term is taken over. A success of no newer term that
-- is not dropped says that the member agrees up to the last index of the request, a refusal
-- makes its next index, of 64 bits, one smaller but 1 at least (0 wraps around) and changes nothing
-- else of the members, and an answer that is dropped changes nothing. Log and commit index stay,
-- and the server stays valid.
pub handle_append_response_lem :
    (env : Env) (i : ℕ) (req : AppendEntriesRequest) (rsp : AppendEntriesResponse) (s : Server)
    → IsValid s
    → i < length s.cluster
    → last_sent req + 1 < u64_limit
    → Returns (AckStep i req rsp s) (handle_append_response env i req rsp s)
unfolding handle_append_response
handle_append_response_lem env i req rsp s v lt fits =
    elim (Bool-cases (ltb s.current_term rsp.term)) [
      | inl newer ↦
          Returns-bind (λ r. TermStep rsp.term s r.0 r.1) (AckStep i req rsp s)
            (update_term env rsp.term s) (after_term i req rsp)
            (update_term-Returns env rsp.term s v)
            λ r e step.
              rw (step.told, newer)
                (record {
                  current_term = step.current_term;
                  agreed = λ h k g. cc;
                  refused = λ m at small h k g. cc;
                  stale = λ h k. cc;
                  log = step.log;
                  commit_index = step.commit_index;
                  valid = step.valid;
                })
      | inr older ↦
          rw (update_term_same env rsp.term s older) (answer_of_term i req rsp s v lt fits older)
    ]
