-- ===== src/Raft/Network/Routing.antt =====
-- What partitions, dropped links and pauses do to the messages.
use navi_kv.Prelude.{◌≡◌, refl, sym, ap, ◌∙◌, arith}
use navi_kv.Prelude.{ℕ, suc, Bool, true, false, not, ◌&&◌, ◌||◌, none, some, List, [], ◌∷◌}
use navi_kv.Prelude.{if◌then◌else◌, Bool-cases, inl, inr}
use navi_kv.Bytes.{Bytes, bytes_eq}
use navi_kv.Raft.Network.{
  MemoryNetwork, MemoryTransport, unreachable, partitioned_node, dropped_message, has, remove,
  has_link, remove_link, route, partition, heal, drop_link, undrop, pause, resume,
}
use navi_kv.Bytes.Laws.{bytes_eq_iff}

has-remove : (k j : Bytes) (js : List Bytes) → has j (remove k js) ≡ not (bytes_eq k j) && has j js
unfolding has remove
has-remove k j [] = ground arith
has-remove k j (i ∷ js) =
    ground (arith, bytes_eq_iff i k, bytes_eq_iff i j, bytes_eq_iff k j, has-remove k j js)

has_link-remove_link :
    (a b f t : Bytes) (ls : List (Bytes × Bytes))
    → has_link f t (remove_link a b ls) ≡ not (bytes_eq a f && bytes_eq b t) && has_link f t ls
unfolding has_link remove_link
has_link-remove_link a b f t [] = ground arith
has_link-remove_link a b f t ((x, y) ∷ ls) = ground (
  arith,
  bytes_eq_iff x a,
  bytes_eq_iff x f,
  bytes_eq_iff a f,
  bytes_eq_iff y b,
  bytes_eq_iff y t,
  bytes_eq_iff b t,
  has_link-remove_link a b f t ls,
)

-- Whether a message between the two goes from or to the node.
abbrev pub touches : Bytes → Bytes → Bytes → Bool
touches a from to = bytes_eq a from || bytes_eq a to

-- Whether one of the two is partitioned.
abbrev pub touches_partition : Bytes → Bytes → MemoryNetwork → Bool
touches_partition from to n = has from n.partitioned || has to n.partitioned

-- A partitioned node is reached by no message and sends none, and all other messages go as before.
-- For a node that was not partitioned before, to heal it gives back the routes that were there; the
-- partition of another node that came in between stays.
pub partition-heal :
    (a b from to : Bytes) (n : MemoryNetwork)
    → has a n.partitioned ≡ false
    → (route from to (partition a n)
        ≡ (if touches a from to then unreachable partitioned_node else route from to n))
      × (route from to (heal a (partition a n)) ≡ route from to n)
      × (route from to (heal a (partition b (partition a n)))
          ≡ (if bytes_eq a b then route from to n else route from to (partition b n)))
unfolding route heal has
partition-heal a b from to n free =
    (ground arith, ground (arith, healed from, healed to), ground (arith, between from, between to))
  where
    free_of : (x : Bytes) → (not (bytes_eq a x) && has x n.partitioned) ≡ has x n.partitioned
    free_of x = elim (Bool-cases (bytes_eq a x)) [
      | inl same ↦ rw (same, ← ((bytes_eq_iff a x).0 same)) (sym free)
      | inr other ↦ rw other
    ]

    healed : (x : Bytes) → has x (remove a (a ∷ n.partitioned)) ≡ has x n.partitioned
    healed x = has-remove a x (a ∷ n.partitioned) ∙ ground (arith, free_of x)

    between :
        (x : Bytes)
        → has x (remove a (b ∷ a ∷ n.partitioned))
          ≡ (if bytes_eq a b then has x n.partitioned else bytes_eq b x || has x n.partitioned)
    between x =
        has-remove a x (b ∷ a ∷ n.partitioned)
        ∙ ground (arith, free_of x, bytes_eq_iff a x, bytes_eq_iff b x, bytes_eq_iff a b)

-- A dropped link loses the messages of its own direction that no partition has stopped, and no
-- others; and to undrop it leaves the routes that undropping it without the drop leaves.
pub drop_link-undrop :
    (a b from to : Bytes) (n : MemoryNetwork)
    → (route from to (drop_link a b n) ≡ (
        if bytes_eq a from && bytes_eq b to && not (touches_partition from to n)
        then unreachable dropped_message
        else route from to n))
      × (route from to (undrop a b (drop_link a b n)) ≡ route from to (undrop a b n))
unfolding route undrop has_link
drop_link-undrop a b from to n = (ground arith, rw undropped)
  where
    undropped :
        has_link from to (remove_link a b ((a, b) ∷ n.dropped))
        ≡ has_link from to (remove_link a b n.dropped)
    undropped =
        has_link-remove_link a b from to ((a, b) ∷ n.dropped)
        ∙ ground (arith, has_link-remove_link a b from to n.dropped)

-- A transport is paused exactly while it has a channel that holds messages back.
abbrev pub IsGated : MemoryTransport → Type 0
IsGated t =
    (t.paused ≡ true → (c : ℕ) × (t.resume_ch ≡ some c)) × (t.paused ≡ false → t.resume_ch ≡ none)

pub record GateStep (next : ℕ) (closed : List ℕ) (t : MemoryTransport) : Type 0 where
  pub paused : (pause next t).0.paused ≡ true
  pub paused_gated : IsGated (pause next t).0
  pub resumed : (resume closed t).0.resume_ch ≡ none
  pub resumed_gated : IsGated (resume closed t).0
  pub released : (c : ℕ) → t.resume_ch ≡ some c → (resume closed t).1 ≡ c ∷ closed
  pub balanced : t.paused ≡ false → resume closed (pause next t).0 ≡ (t, next ∷ closed)

-- Pausing and resuming keep a transport gated. A paused transport holds messages back, a resumed
-- one does not; resuming closes the channel that they wait on, and undoes a pause.
pub gate_lem :
    (next : ℕ) (closed : List ℕ) (t : MemoryTransport) → IsGated t → GateStep next closed t
unfolding pause resume
gate_lem next closed t (gated, free) = elim (Bool-cases t.paused) [
  | inl stopped ↦
      let (c, e) = gated stopped in
      let p : pause next t ≡ (t, next) = rw stopped in
      let r : resume closed t ≡ (record t { paused = false; resume_ch = none }, c ∷ closed) =
        rw (stopped, e) in
      record {
        paused = ap (λ x. x.0.paused) p ∙ stopped;
        paused_gated = rw p (gated, free);
        resumed = ap (λ x. x.0.resume_ch) r;
        resumed_gated = rw r (λ h. cc, λ h. refl);
        released = λ d f. ap (λ x. x.1) r ∙ ap (λ x. x ∷ closed) (ground (arith, e, f));
        balanced = λ h. cc;
      }
  | inr running ↦
      let e = free running in
      let p : pause next t ≡ (record t { paused = true; resume_ch = some next }, suc next) =
        rw running in
      let r : resume closed t ≡ (t, closed) = rw running in
      record {
        paused = ap (λ x. x.0.paused) p;
        paused_gated = rw p (λ h. (next, refl), λ h. cc);
        resumed = ap (λ x. x.0.resume_ch) r ∙ e;
        resumed_gated = rw r (gated, free);
        released = λ d f. cc;
        balanced = λ h. rw p (rw (running, e) refl);
      }
]
