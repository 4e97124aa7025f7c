-- ===== src/Kv/Startup/Going.antt =====
-- What holds of the code of the start if it goes on.
use navi_kv.Prelude.{Bool, true, false, Option, none, some, if◌then◌else◌, ◌≡◌}
use navi_kv.Text.Ranges.{Holds}
use navi_kv.Kv.Startup.{Start, ConfigError, ready, fatal, crash, ◌>>=◌, or_fatal, or_crash}

-- If the code goes on, what it has satisfies `P`.
abbrev pub Goes {ℓ} : {A : Type ℓ} → (A → Type 0) → Start A → Type 0
Goes P (ready a) = P a
Goes P (fatal e) = Unit
Goes P crash = Unit

pub Goes-bind {ℓ κ} :
    {A : Type ℓ} {B : Type κ} (P : A → Type 0) (Q : B → Type 0) (m : Start A) (f : A → Start B)
    → Goes P m
    → ((a : A) → P a → Goes Q (f a))
    → Goes Q (m >>= f)
Goes-bind P Q (ready a) f h k = k a h
Goes-bind P Q (fatal e) f h k = tt
Goes-bind P Q crash f h k = tt

pub Goes-map :
    {A : Type 0} (P Q : A → Type 0) (m : Start A) → Goes P m → ((a : A) → P a → Q a) → Goes Q m
Goes-map P Q (ready a) h k = k a h
Goes-map P Q (fatal e) h k = tt
Goes-map P Q crash h k = tt

pub Goes-if :
    {A : Type 0} (P : A → Type 0) (b : Bool) (m n : Start A)
    → Goes P m
    → Goes P n
    → Goes P (if b then m else n)
Goes-if P true m n h k = h
Goes-if P false m n h k = k

pub Goes-or_fatal :
    {A : Type 0} (P : A → Type 0) (e : ConfigError) (o : Option A)
    → Holds P o
    → Goes P (or_fatal e o)
Goes-or_fatal P e none h = tt
Goes-or_fatal P e (some a) h = h

pub Goes-or_crash : {A : Type 0} (P : A → Type 0) (o : Option A) → Holds P o → Goes P (or_crash o)
Goes-or_crash P none h = tt
Goes-or_crash P (some a) h = h

-- Nothing is asked of the value.
pub anything : {A : Type 0} (o : Option A) → Holds (λ a. Unit {0}) o
anything none = tt
anything (some a) = tt

pub Goes-ready : {A : Type 0} (P : A → Type 0) (m : Start A) (a : A) → m ≡ ready a → Goes P m → P a
Goes-ready P m a e h = rw e at h
