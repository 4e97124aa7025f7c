-- ===== src/Raft/Replication/Loop.antt =====
-- The rounds of the append loop together: the loop leaves the log that `reconcile` describes.
use navi_kv.Prelude.{ℕ, suc, ◌+◌, ◌≤◌, ◌<◌, ◌≡◌, refl, sym, ap, ◌∙◌}
use navi_kv.Prelude.{List, [], ◌∷◌, ◌++◌, map, arith}
use navi_kv.Prelude.{◌==◌, if◌then◌else◌, Bool-cases}
use navi_kv.Prelude.{Outcome, ok, ◌>>=◌, Returns, Returns-bind}
use navi_kv.Prelude.{length, All, length-append}
use navi_kv.Prelude.{inl, inr, append-nil, append_assoc}
use mathlib.Core.Path.{subst₂}
use navi_kv.Raft.State.{Entry, Server}
use navi_kv.Raft.Invariant.{IsValid, IsStorableEntry}
use navi_kv.Raft.Replication.{cut_conflict, place_entry, merge_appended}
use navi_kv.Raft.Replication.{append_round, append_loop}
use navi_kv.Raft.Replication.Reconcile.{kept, reconcile, appended, reconcile-nil, appended-nil}
use navi_kv.Raft.Replication.Rounds.{SameRest, SameRest-refl, SameRest-trans, Holds, make_room_same}
use navi_kv.Raft.Replication.Rounds.{
  merge_appended-Returns, place_new, place_old, cut_none, cut_same, cut_other,
}

-- The log and the count that a round leaves, with `back` behind the round's index.
abbrev round_back : List Entry → Entry → List Entry
round_back [] e = kept e ∷ []
round_back (x ∷ xs) e = if x.term == e.term then x ∷ xs else kept e ∷ []

abbrev round_count : List Entry → Entry → ℕ
round_count [] e = 1
round_count (x ∷ xs) e = if x.term == e.term then 0 else 1

module _ (spare vote i : ℕ) (front : List Entry) (at : i ≡ length front) (pos : 0 < i) where
  abbrev after_cut : Entry → Server → Outcome (ℕ × Server)
  after_cut e s = do (n, s₁) ← place_entry i e s; s₂ ← merge_appended vote i e s₁; ok (n, s₂)

  -- The round from its placement on.
  finish_round :
      (n : ℕ) (l : List Entry) (e : Entry) (s s₁ : Server)
      → IsStorableEntry e
      → SameRest s s₁
      → Returns (λ r. (r.0 ≡ n) × Holds l s₁ r.1) (place_entry i e s₁)
      → Returns (λ r. (r.0 ≡ n) × Holds l s r.1) (after_cut e s₁)
  finish_round n l e s s₁ storable same placed =
      Returns-bind (λ r. (r.0 ≡ n) × Holds l s₁ r.1) (λ r. (r.0 ≡ n) × Holds l s r.1)
        (place_entry i e s₁) (λ r. merge_appended vote i e r.1 >>= λ s₂. ok (r.0, s₂)) placed
        λ r e₁ (count, h).
          Returns-bind (Holds r.1.log r.1) (λ q. (q.0 ≡ n) × Holds l s q.1)
            (merge_appended vote i e r.1) (λ s₂. ok (r.0, s₂))
            (merge_appended-Returns vote i e r.1 h.valid storable)
            λ s₂ e₂ k. (
              count,
              record {
                log = k.log ∙ h.log;
                valid = k.valid;
                rest = SameRest-trans same (SameRest-trans h.rest k.rest);
              },
            )

  append_round-Returns :
      (back : List Entry) (e : Entry) (s : Server)
      → IsValid s
      → s.log ≡ front ++ back
      → IsStorableEntry e
      → Returns
          (λ r. (r.0 ≡ round_count back e) × Holds (front ++ round_back back e) s r.1)
          (append_round spare vote i e s)
  unfolding append_round
  append_round-Returns [] e s v l storable =
      let whole : s.log ≡ front = l ∙ append-nil front in
      let room : i ≤ length s.log = rw whole (omega arith) in
      rw (make_room_same spare i s room, cut_none front i at vote e s whole)
        (finish_round 1 (front ++ kept e ∷ []) e s s storable (SameRest-refl s)
          (place_new front i at e s v whole storable))
  append_round-Returns (x ∷ xs) e s v l storable =
      let room : i ≤ length s.log = rw l (omega (arith, length-append front (x ∷ xs))) in
      elim (Bool-cases (x.term == e.term)) [
        | inl same ↦
            rw (make_room_same spare i s room, cut_same front i at vote x e xs s l same, same)
              (finish_round 0 (front ++ x ∷ xs) e s s storable (SameRest-refl s)
                (place_old front i at x e xs s v l same))
        | inr other ↦
            rw (make_room_same spare i s room, other)
              (Returns-bind (Holds front s) (λ r. (r.0 ≡ 1) × Holds (front ++ kept e ∷ []) s r.1)
                (cut_conflict vote i e s) (after_cut e)
                (cut_other front i at vote x e xs s pos v l other)
                λ s₁ e₁ h.
                  finish_round 1 (front ++ kept e ∷ []) e s s₁ storable h.rest
                    (place_new front i at e s₁ h.valid h.log storable))
      ]

module _ (spare : ℕ → ℕ) (vote : ℕ) where
  -- What the loop from index `i` does, where the log is `front` up to there and `back` from there
  -- on.
  abbrev pub LoopResult : List Entry → List Entry → List Entry → Server → ℕ × Server → Type 0
  LoopResult front back es s r = (r.0 ≡ appended back es) × Holds (front ++ reconcile back es) s r.1

  -- One round and the rest of the loop.
  after_round :
      (i n k : ℕ) (l l' : List Entry) (e : Entry) (es : List Entry) (s : Server)
      → Returns (λ r. (r.0 ≡ n) × Holds l s r.1) (append_round (spare i) vote i e s)
      → ((s₁ : Server)
          → Holds l s s₁
          → Returns (λ r. (r.0 ≡ k) × Holds l' s₁ r.1) (append_loop spare vote (suc i) es s₁))
      → Returns (λ r. (r.0 ≡ n + k) × Holds l' s r.1) (append_loop spare vote i (e ∷ es) s)
  unfolding append_loop
  after_round i n k l l' e es s round rest =
      Returns-bind (λ r. (r.0 ≡ n) × Holds l s r.1) (λ r. (r.0 ≡ n + k) × Holds l' s r.1)
        (append_round (spare i) vote i e s)
        (λ r. append_loop spare vote (suc i) es r.1 >>= λ q. ok (r.0 + q.0, q.1)) round
        λ r e₁ (count, h).
          Returns-bind (λ q. (q.0 ≡ k) × Holds l' r.1 q.1) (λ q. (q.0 ≡ n + k) × Holds l' s q.1)
            (append_loop spare vote (suc i) es r.1) (λ q. ok (r.0 + q.0, q.1)) (rest r.1 h)
            λ q e₂ (count', h'). (
              omega arith,
              record { log = h'.log; valid = h'.valid; rest = SameRest-trans h.rest h'.rest },
            )

  -- The same result under other names.
  renamed :
      {n n' : ℕ} {l l' : List Entry} (s : Server) (m : Outcome (ℕ × Server))
      → n ≡ n'
      → l ≡ l'
      → Returns (λ r. (r.0 ≡ n) × Holds l s r.1) m
      → Returns (λ r. (r.0 ≡ n') × Holds l' s r.1) m
  renamed s m p q h = subst₂ (λ n l. Returns (λ r. (r.0 ≡ n) × Holds l s r.1) m) p q h

  abbrev LoopClaim : List Entry → Type 0
  LoopClaim es =
      (front back : List Entry) (i : ℕ) (s : Server)
      → i ≡ length front
      → 0 < i
      → IsValid s
      → s.log ≡ front ++ back
      → Returns (LoopResult front back es s) (append_loop spare vote i es s)

  -- A round that leaves `y` at its index and `back` behind it, and the claim for the rest.
  round_and_rest :
      (i n : ℕ) (front : List Entry) (y : Entry) (back : List Entry) (e : Entry) (es : List Entry)
      (s : Server)
      → LoopClaim es
      → i ≡ length front
      → Returns
          (λ r. (r.0 ≡ n) × Holds (front ++ y ∷ back) s r.1)
          (append_round (spare i) vote i e s)
      → Returns
          (λ r. (r.0 ≡ n + appended back es) × Holds (front ++ y ∷ reconcile back es) s r.1)
          (append_loop spare vote i (e ∷ es) s)
  round_and_rest i n front y back e es s ih at round =
      renamed s (append_loop spare vote i (e ∷ es) s) refl
        (append_assoc front (y ∷ []) (reconcile back es))
        (after_round i n (appended back es) (front ++ y ∷ back)
          ((front ++ y ∷ []) ++ reconcile back es) e es s round
          λ s₁ k.
            ih (front ++ y ∷ []) back (suc i) s₁ (omega (arith, length-append front (y ∷ [])))
              (omega arith) k.valid (k.log ∙ sym (append_assoc front (y ∷ []) back)))

  -- A round that leaves the request's entry at the end of the log.
  fresh_and_rest :
      (i : ℕ) (front : List Entry) (e : Entry) (es : List Entry) (s : Server)
      → LoopClaim es
      → i ≡ length front
      → Returns
          (λ r. (r.0 ≡ 1) × Holds (front ++ kept e ∷ []) s r.1)
          (append_round (spare i) vote i e s)
      → Returns
          (λ r. (r.0 ≡ suc (length es)) × Holds (front ++ kept e ∷ map kept es) s r.1)
          (append_loop spare vote i (e ∷ es) s)
  fresh_and_rest i front e es s ih at round =
      renamed s (append_loop spare vote i (e ∷ es) s) (omega (arith, appended-nil es))
        (ap (λ (t : List Entry). front ++ kept e ∷ t) (reconcile-nil es))
        (round_and_rest i 1 front (kept e) [] e es s ih at round)

  append-LoopClaim : (es : List Entry) → All IsStorableEntry es → LoopClaim es
  unfolding reconcile appended
  append-LoopClaim [] h front back i s at pos v l =
      unfold append_loop in (refl, record { log = l; valid = v; rest = SameRest-refl s })
  append-LoopClaim (e ∷ es) (storable, h) front [] i s at pos v l =
      fresh_and_rest i front e es s (append-LoopClaim es h) at
        (append_round-Returns (spare i) vote i front at pos [] e s v l storable)
  append-LoopClaim (e ∷ es) (storable, h) front (x ∷ xs) i s at pos v l =
      let round = append_round-Returns (spare i) vote i front at pos (x ∷ xs) e s v l storable in
      elim (Bool-cases (x.term == e.term)) [
        | inl same ↦
            let count : 0 + appended xs es ≡ appended (x ∷ xs) (e ∷ es) = rw same (omega arith) in
            let log : x ∷ reconcile xs es ≡ reconcile (x ∷ xs) (e ∷ es) = rw same in
            renamed s (append_loop spare vote i (e ∷ es) s) count (ap (λ t. front ++ t) log)
              (round_and_rest i 0 front x xs e es s (append-LoopClaim es h) at (rw same at round))
        | inr other ↦
            let count : suc (length es) ≡ appended (x ∷ xs) (e ∷ es) = rw other in
            let log : kept e ∷ map kept es ≡ reconcile (x ∷ xs) (e ∷ es) = rw other in
            renamed s (append_loop spare vote i (e ∷ es) s) count (ap (λ t. front ++ t) log)
              (fresh_and_rest i front e es s (append-LoopClaim es h) at (rw other at round))
      ]

  -- The loop does not panic, for any spare capacity of the log: it leaves the log that `reconcile`
  -- describes, a valid server, and the number of entries that it appended.
  pub append_loop-Returns :
      (es front back : List Entry) (i : ℕ) (s : Server)
      → i ≡ length front
      → 0 < i
      → IsValid s
      → s.log ≡ front ++ back
      → All IsStorableEntry es
      → Returns (LoopResult front back es s) (append_loop spare vote i es s)
  append_loop-Returns es front back i s at pos v l h =
      append-LoopClaim es h front back i s at pos v l
