-- ===== src/Raft/Replication/Submitting.antt =====
-- `Apply` of replication.go: commands that a client submits.
use navi_kv.Prelude.{ℕ, zero, suc, ◌+◌, ◌-◌, ◌<◌, ◌≡◌, refl, sym, ap, ◌∙◌}
use navi_kv.Prelude.{true, false, Option, none, some, List, [], ◌∷◌, ◌++◌, arith}
use navi_kv.Prelude.{leb, Bool-cases}
use navi_kv.Prelude.{panic, Returns}
use navi_kv.Prelude.{length, drop, All, length-append}
use navi_kv.Prelude.{inl, inr, append-nil, append_assoc}
use navi_kv.Bytes.{Bytes}
use native.Mathlib.Nat.{add-zero}
use navi_kv.Prelude.{All-append}
use navi_kv.Raft.State.{get_voted_for}
use navi_kv.Raft.Invariant.{IsPlaced-get_elem?}
use navi_kv.Raft.State.{Entry, Server, is_leader}
use navi_kv.Raft.Invariant.{IsValid, IsValid-storage, IsStorable, IsStorableEntry}
use navi_kv.Raft.Config.{entry_size, entry_header}
use navi_kv.Raft.Persistence.{persist, write_state, encode_entries}
use navi_kv.Raft.Persistence.Total.{persist_total}
use navi_kv.Raft.Replication.{append_commands, apply_commands}

-- The entries of submitted commands: each with the term of the leader and a channel of its own.
unfoldable pub submitted : ℕ → ℕ → List Bytes → List Entry
submitted term chan [] = []
submitted term chan (c ∷ cs) =
    record { command = c; term = term; result = some chan } ∷ submitted term (suc chan) cs

unfoldable pub channels : ℕ → List Bytes → List ℕ
channels chan [] = []
channels chan (c ∷ cs) = chan ∷ channels (suc chan) cs

pub submitted-IsStorable :
    (term chan : ℕ) (cs : List Bytes)
    → All IsStorable cs
    → All IsStorableEntry (submitted term chan cs)
unfolding submitted
submitted-IsStorable term chan [] h = tt
submitted-IsStorable term chan (c ∷ cs) (s, h) =
    (record { fits = s.fits; decodes = s.decodes }, submitted-IsStorable term (suc chan) cs h)

pub append_commands_lem :
    (cs : List Bytes) (s : Server)
    → append_commands cs s ≡ (
      channels s.next_chan cs,
      record s {
        log = s.log ++ submitted s.current_term s.next_chan cs;
        next_chan = s.next_chan + length cs;
      },
    )
unfolding append_commands submitted channels
append_commands_lem [] s =
    λ i. ([], record s { log = sym (append-nil s.log) i; next_chan = sym (add-zero s.next_chan) i })
append_commands_lem (c ∷ cs) s =
    let e : Entry = record { command = c; term = s.current_term; result = some s.next_chan } in
    let s₁ : Server = record s { log = s.log ++ e ∷ []; next_chan = suc s.next_chan } in
    let rest = submitted s.current_term (suc s.next_chan) cs in
    let regroup : (s.log ++ e ∷ []) ++ rest ≡ s.log ++ e ∷ rest =
      append_assoc s.log (e ∷ []) rest in
    let count : suc s.next_chan + length cs ≡ s.next_chan + suc (length cs) = omega arith in
    ap (λ (r : List ℕ × Server). (s.next_chan ∷ r.0, r.1)) (append_commands_lem cs s₁) ∙ λ i.
    (s.next_chan ∷ channels (suc s.next_chan) cs, record s { log = regroup i; next_chan = count i })

pub record SubmitStep (cs : List Bytes) (s : Server) (chans : Option (List ℕ)) (s' : Server)
    : Type 0 where
  pub refused : is_leader s.state ≡ false → (chans ≡ none) × (s' ≡ s)
  pub waits : is_leader s.state ≡ true → chans ≡ some (channels s.next_chan cs)
  pub log : is_leader s.state ≡ true → s'.log ≡ s.log ++ submitted s.current_term s.next_chan cs
  pub commit_index : s'.commit_index ≡ s.commit_index
  pub valid : IsValid s'

pub with_entries-IsValid :
    (es : List Entry) (n : ℕ) (s : Server)
    → IsValid s
    → All IsStorableEntry es
    → IsValid (record s { log = s.log ++ es; next_chan = n })
with_entries-IsValid es n s v h = record {
  placed = v.placed;
  rooted = v.rooted;
  started = omega (arith, length-append s.log es, v.started);
  storable = All-append IsStorableEntry s.log es v.storable h;
}

-- `Apply` of commands that fit and decode returns up to its wait. A server that is no leader
-- refuses and changes nothing. A leader appends one entry for each command, in order, with its term
-- and a fresh channel, waits on those channels, and commits nothing by itself.
pub apply_commands_lem :
    (cs : List Bytes) (s : Server)
    → IsValid s
    → All IsStorable cs
    → Returns (λ r. SubmitStep cs s r.0 r.1) (apply_commands cs s)
unfolding apply_commands
apply_commands_lem cs s v h = elim (Bool-cases (is_leader s.state)) [
  | inl leads ↦
      let es = submitted s.current_term s.next_chan cs in
      let s₁ : Server = record s { log = s.log ++ es; next_chan = s.next_chan + length cs } in
      let v₁ =
        with_entries-IsValid es (s.next_chan + length cs) s v
          (submitted-IsStorable s.current_term s.next_chan cs h) in
      let (m, e) = persist_total true (length cs) s₁ v₁ in
      rw (leads, append_commands_lem cs s, e)
        (record {
          refused = λ no'. cc;
          waits = λ yes'. refl;
          log = λ yes'. refl;
          commit_index = refl;
          valid = IsValid-storage s₁ m v₁;
        })
  | inr follows ↦ rw follows (record {
    refused = λ no'. (refl, refl);
    waits = λ yes'. cc;
    log = λ yes'. cc;
    commit_index = refl;
    valid = v;
  })
]

drop_last {ℓ} :
    {A : Type ℓ} (xs : List A) (x : A) (n : ℕ) → n ≡ length xs → drop n (xs ++ x ∷ []) ≡ x ∷ []
drop_last [] x zero h = refl
drop_last [] x (suc n) h = absurd (omega arith)
drop_last (y ∷ xs) x zero h = absurd (omega arith)
drop_last (y ∷ xs) x (suc n) h = drop_last xs x n (omega arith)

-- On a valid leader, `Apply` of one command of more than 112 bytes panics.
pub oversized_panics :
    (c : Bytes) (s : Server)
    → IsValid s
    → is_leader s.state ≡ true
    → entry_size - entry_header < length c
    → apply_commands (c ∷ []) s ≡ panic
unfolding apply_commands persist write_state encode_entries
oversized_panics c s v leads long =
    let e : Entry = record { command = c; term = s.current_term; result = some s.next_chan } in
    let log : List Entry = s.log ++ e ∷ [] in
    let s₁ : Server = record s { log = log; next_chan = suc s.next_chan } in
    let (x, here, i) = IsPlaced-get_elem? s.id s.cluster s.cluster_index v.placed in
    let last : drop (length log - 1) log ≡ e ∷ [] =
      drop_last s.log e (length log - 1) (omega (arith, length-append s.log (e ∷ []))) in
    let test : leb (length c) 112 ≡ false = ground arith in
    rw leads (unfold append_commands get_voted_for in rw (here, last, test))
