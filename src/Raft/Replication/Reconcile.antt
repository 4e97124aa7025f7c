-- ===== src/Raft/Replication/Reconcile.antt =====
-- The log that a follower should have after an append, as the Raft paper says it: the entries that
-- agree stay, and from the first conflict on the entries of the request replace what was there.
use navi_kv.Prelude.{ℕ, zero, suc, ◌≤◌, ◌≡◌, refl, sym, ap, ◌∙◌}
use navi_kv.Prelude.{Bool, true, ◌&&◌, none, List, [], ◌∷◌, ◌++◌, map, arith}
use navi_kv.Prelude.{◌==◌, if◌then◌else◌, Bool-cases}
use navi_kv.Prelude.{length, take, drop}
use navi_kv.Prelude.{inl, inr, append-nil}
use navi_kv.Raft.State.{Entry}

-- An entry as a follower keeps it, without the channel.
abbrev pub kept : Entry → Entry
kept e = record e { result = none }

unfoldable pub reconcile : List Entry → List Entry → List Entry
reconcile xs [] = xs
reconcile [] (e ∷ es) = kept e ∷ map kept es
reconcile (x ∷ xs) (e ∷ es) =
    let rest = reconcile xs es in if x.term == e.term then x ∷ rest else kept e ∷ map kept es

abbrev pub terms : List Entry → List ℕ
terms [] = []
terms (e ∷ es) = e.term ∷ terms es

terms-kept : (es : List Entry) → terms (map kept es) ≡ terms es
terms-kept [] = refl
terms-kept (e ∷ es) = ap (λ t. e.term ∷ t) (terms-kept es)

pub reconcile-nil : (es : List Entry) → reconcile [] es ≡ map kept es
unfolding reconcile
reconcile-nil [] = refl
reconcile-nil (e ∷ es) = refl

take-terms : (es : List Entry) → take (length es) (terms es) ≡ terms es
take-terms [] = refl
take-terms (e ∷ es) = ap (λ t. e.term ∷ t) (take-terms es)

appended_terms : (es : List Entry) → take (length es) (terms (map kept es)) ≡ terms es
appended_terms es = rw (terms-kept es) (take-terms es)

length-kept : (es : List Entry) → length (map kept es) ≡ length es
length-kept [] = refl
length-kept (e ∷ es) = ap suc (length-kept es)

-- Position by position the result has the terms of the request.
pub reconcile-terms : (xs es : List Entry) → take (length es) (terms (reconcile xs es)) ≡ terms es
unfolding reconcile
reconcile-terms xs [] = refl
reconcile-terms [] (e ∷ es) = ap (λ t. e.term ∷ t) (appended_terms es)
reconcile-terms (x ∷ xs) (e ∷ es) = elim (Bool-cases (x.term == e.term)) [
  | inl same ↦
      let t : x.term ≡ e.term = ground arith in
      rw same (ap (λ r. x.term ∷ r) (reconcile-terms xs es) ∙ rw t)
  | inr other ↦ rw other (ap (λ t. e.term ∷ t) (appended_terms es))
]

-- Whether the terms agree as far as both lists go.
unfoldable pub agree : List Entry → List Entry → Bool
agree [] es = true
agree (x ∷ xs) [] = true
agree (x ∷ xs) (e ∷ es) = x.term == e.term && agree xs es

-- Without a conflict nothing is lost: the log stays, and gains what the request has beyond it.
pub reconcile-agree :
    (xs es : List Entry)
    → agree xs es ≡ true
    → reconcile xs es ≡ xs ++ map kept (drop (length xs) es)
unfolding reconcile agree
reconcile-agree [] es h = reconcile-nil es
reconcile-agree (x ∷ xs) [] h = sym (append-nil (x ∷ xs))
reconcile-agree (x ∷ xs) (e ∷ es) h =
    let same : (x.term == e.term) ≡ true = ground arith in
    rw same (ap (λ r. x ∷ r) (reconcile-agree xs es (ground arith)))

agree-kept : (es : List Entry) → agree (map kept es) es ≡ true
unfolding agree
agree-kept [] = refl
agree-kept (e ∷ es) = ground (arith, agree-kept es)

pub agree-reconcile : (xs es : List Entry) → agree (reconcile xs es) es ≡ true
unfolding agree reconcile
agree-reconcile [] [] = refl
agree-reconcile (x ∷ xs) [] = refl
agree-reconcile [] (e ∷ es) = ground (arith, agree-kept es)
agree-reconcile (x ∷ xs) (e ∷ es) = elim (Bool-cases (x.term == e.term)) [
  | inl same ↦ rw same (rw same (agree-reconcile xs es))
  | inr other ↦ rw other (ground (arith, agree-kept es))
]

pub length-reconcile : (xs es : List Entry) → length es ≤ length (reconcile xs es)
unfolding reconcile
length-reconcile xs [] = omega arith
length-reconcile [] (e ∷ es) = omega (arith, length-kept es)
length-reconcile (x ∷ xs) (e ∷ es) = elim (Bool-cases (x.term == e.term)) [
  | inl same ↦ rw same (omega (arith, length-reconcile xs es))
  | inr other ↦ rw other (omega (arith, length-kept es))
]

drop_past {ℓ} : {A : Type ℓ} (n : ℕ) (es : List A) → length es ≤ n → drop n es ≡ []
drop_past zero [] h = refl
drop_past zero (e ∷ es) h = absurd (omega arith)
drop_past (suc n) [] h = refl
drop_past (suc n) (e ∷ es) h = drop_past n es (omega arith)

-- A second reconciliation with the same entries changes nothing.
pub reconcile-reconcile : (xs es : List Entry) → reconcile (reconcile xs es) es ≡ reconcile xs es
reconcile-reconcile xs es =
    reconcile-agree (reconcile xs es) es (agree-reconcile xs es)
    ∙ rw (drop_past (length (reconcile xs es)) es (length-reconcile xs es))
        (append-nil (reconcile xs es))

-- How many entries of the request become new entries of the log.
unfoldable pub appended : List Entry → List Entry → ℕ
appended xs [] = 0
appended [] (e ∷ es) = suc (length es)
appended (x ∷ xs) (e ∷ es) =
    let rest = appended xs es in if x.term == e.term then rest else suc (length es)

pub appended-nil : (es : List Entry) → appended [] es ≡ length es
unfolding appended
appended-nil [] = refl
appended-nil (e ∷ es) = refl
