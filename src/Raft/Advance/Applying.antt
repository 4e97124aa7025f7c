-- ===== src/Raft/Advance/Applying.antt =====
-- The entries that reach the state machine.
use navi_kv.Prelude.{ℕ, zero, suc, ◌<◌, ◌≡◌, refl, sym, ap, ◌∙◌}
use navi_kv.Prelude.{◌||◌, some, List, [], ◌∷◌, ◌++◌, arith}
use navi_kv.Prelude.{leb, ◌==◌, if◌then◌else◌, Bool-cases}
use navi_kv.Prelude.{Returns}
use navi_kv.Prelude.{length, get_elem?, take}
use navi_kv.Prelude.{inl, inr}
use navi_kv.Bytes.{Bytes}
use navi_kv.Prelude.{get_elem?_in_range}
use navi_kv.Raft.State.{Entry, Server}
use navi_kv.Raft.Config.{is_config_change_command}
use navi_kv.Raft.Advance.{
  ApplyResult, apply_entry, apply_next, advance_commit_index, leader_commit_index,
}

module _ {E M : Type 0} (run : Bytes → M → ApplyResult E × M) where
  -- What one entry does to the state machine: a no-op and a config change nothing.
  unfoldable pub effect : Entry → M → M
  effect e m =
      if length e.command == 0 || is_config_change_command e.command then m else (run e.command m).1

  -- The state machine after the entries of a log, in order.
  unfoldable pub replay : List Entry → M → M
  replay [] m = m
  replay (e ∷ es) m = replay es (effect e m)

  replay-append : (xs ys : List Entry) (m : M) → replay (xs ++ ys) m ≡ replay ys (replay xs m)
  unfolding replay
  replay-append [] ys m = refl
  replay-append (x ∷ xs) ys m = replay-append xs ys (effect x m)

  take-suc {ℓ} :
      {A : Type ℓ} (i : ℕ) (xs : List A) {x : A}
      → get_elem? xs i ≡ some x
      → take (suc i) xs ≡ take i xs ++ x ∷ []
  take-suc zero [] h = cc
  take-suc zero (y ∷ xs) h = ground arith
  take-suc (suc i) [] h = cc
  take-suc (suc i) (y ∷ xs) h = ap (λ t. y ∷ t) (take-suc i xs h)

  apply_entry_lem :
      (e : Entry) (s : Server) (m : M)
      → ((apply_entry run e s m).2 ≡ effect e m)
        × ((apply_entry run e s m).1.last_applied ≡ s.last_applied)
        × ((apply_entry run e s m).1.log ≡ s.log)
        × ((apply_entry run e s m).1.commit_index ≡ s.commit_index)
  unfolding apply_entry effect
  apply_entry_lem e s m = ground arith

  -- The state machine is what the applied part of the log has made of its first state `m₀`.
  abbrev pub IsReplayed : M → Server → M → Type 0
  IsReplayed m₀ s m = m ≡ replay (take s.last_applied s.log) m₀

  pub record AdvanceStep (m₀ : M) (s s' : Server) (m' : M) : Type 0 where
    pub commit_index : s'.commit_index ≡ leader_commit_index s
    pub one :
        s'.last_applied
        ≡ (if leb s.last_applied s'.commit_index then suc s.last_applied else s.last_applied)
    pub log : s'.log ≡ s.log
    pub replayed : IsReplayed m₀ s' m'

  -- `advanceCommitIndex` returns where the commit index is an index of the log. It applies one
  -- entry if one is left, and the state machine stays what the applied entries, in their order,
  -- have made of its first state: each is run once, and no-ops and config changes are not run.
  pub advance_commit_index_lem :
      (m₀ : M) (s : Server) (m : M)
      → leader_commit_index s < length s.log
      → IsReplayed m₀ s m
      → Returns (λ r. AdvanceStep m₀ s r.1 r.2) (advance_commit_index run s m)
  unfolding advance_commit_index apply_next
  advance_commit_index_lem m₀ s m lt h =
      elim (Bool-cases (leb s.last_applied (leader_commit_index s))) [
        | inl due ↦
            let (e, here) = get_elem?_in_range s.log s.last_applied (ground arith) in
            let s₁ : Server = record s { commit_index = leader_commit_index s } in
            let (m', a, l, c) = apply_entry_lem e s₁ m in
            rw (due, here)
              (record {
                commit_index = c;
                one = rw (c, due) (ap suc a);
                log = l;
                replayed = m' ∙ ap (effect e) h ∙ one_more s (apply_entry run e s₁ m).1 e here a l;
              })
        | inr none_due ↦
            rw none_due
              (record { commit_index = refl; one = rw none_due; log = refl; replayed = h })
      ]
    where
      one_more :
          (s s' : Server) (e : Entry)
          → get_elem? s.log s.last_applied ≡ some e
          → s'.last_applied ≡ s.last_applied
          → s'.log ≡ s.log
          → effect e (replay (take s.last_applied s.log) m₀)
            ≡ replay (take (suc s'.last_applied) s'.log) m₀
      one_more s s' e here a l = sym (
          rw
            (
              l,
              a,
              take-suc s.last_applied s.log here,
              replay-append (take s.last_applied s.log) (e ∷ []) m₀,
            )
            (unfold replay in refl))
