-- ===== src/Text/Splitting.antt =====
-- Texts that are joined by a separator are split again.
use navi_kv.Prelude.{ℕ, ◌≡◌, refl, ap, ◌∙◌, false, List, [], ◌∷◌, ◌++◌, ◌==◌, All, ==_refl}
use navi_kv.Bytes.{Bytes}
use navi_kv.Text.{split, join}

-- The separator does not stand in the text.
abbrev pub Lacks : ℕ → Bytes → Type 0
Lacks sep s = All (λ c. (c == sep) ≡ false) s

pub split_whole : (sep : ℕ) (s : Bytes) → Lacks sep s → split sep s ≡ s ∷ []
unfolding split
split_whole sep [] h = refl
split_whole sep (c ∷ s) (p, h) = rw (p, split_whole sep s h) refl

-- The part in front of a separator is the first one.
pub split_part : (sep : ℕ) (s t : Bytes) → Lacks sep s → split sep (s ++ sep ∷ t) ≡ s ∷ split sep t
unfolding split
split_part sep [] t h = rw (==_refl sep) refl
split_part sep (c ∷ s) t (p, h) = rw (p, split_part sep s t h) refl

pub split-join :
    (sep : ℕ) (p : Bytes) (ps : List Bytes)
    → All (Lacks sep) (p ∷ ps)
    → split sep (join sep (p ∷ ps)) ≡ p ∷ ps
unfolding join
split-join sep p [] (h, rest) = split_whole sep p h
split-join sep p (q ∷ ps) (h, rest) =
    split_part sep p (join sep (q ∷ ps)) h ∙ ap (λ l. p ∷ l) (split-join sep q ps rest)
