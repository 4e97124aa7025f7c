-- ===== src/Raft/Invariant.antt =====
-- The invariant of a running server of navi/server.go.
use navi_kv.Prelude.{ℕ, zero, suc, ◌-◌, ◌≤◌, ◌<◌, ◌≡◌, ◌≢◌, refl, sym, ap, ◌∙◌}
use navi_kv.Prelude.{true, some, List, [], ◌∷◌, ◌++◌, arith}
use navi_kv.Prelude.{ltb}
use navi_kv.Prelude.{ok, Returns}
use navi_kv.Prelude.{length, get_elem?, modify, All}
use navi_kv.Bytes.{Bytes}
use navi_kv.Raft.State.{ClusterMember, Entry, Server, get_voted_for, set_voted_for, with_vote}
use navi_kv.Raft.Storage.{MemStorage}
use navi_kv.Raft.Config.{is_config_change_command, decode_config_change, entry_size, entry_header}
use navi_kv.Raft.Cluster.{has_id}

-- The first member with the id stands at the position.
abbrev pub IsPlaced : ℕ → List ClusterMember → ℕ → Type 0
IsPlaced n [] i = ⊥
IsPlaced n (m ∷ ms) zero = m.id ≡ n
IsPlaced n (m ∷ ms) (suc i) = (m.id ≢ n) × IsPlaced n ms i

-- A command that has room in a slot of the log file and, if it is marked as a config change,
-- decodes.
pub record IsStorable (command : Bytes) : Type 0 where
  pub fits : length command ≤ entry_size - entry_header
  pub decodes :
      is_config_change_command command ≡ true
      → Returns (λ ms. Unit {0}) (decode_config_change command)

abbrev pub IsStorableEntry : Entry → Type 0
IsStorableEntry e = IsStorable e.command

pub record IsValid (s : Server) : Type 0 where
  pub placed : IsPlaced s.id s.cluster s.cluster_index
  pub rooted : has_id s.id s.base_cluster ≡ true
  pub started : 0 < length s.log
  pub storable : All IsStorableEntry s.log

pub IsPlaced-lt : (n : ℕ) (ms : List ClusterMember) (i : ℕ) → IsPlaced n ms i → i < length ms
IsPlaced-lt n [] i h = absurd h
IsPlaced-lt n (m ∷ ms) zero h = omega arith
IsPlaced-lt n (m ∷ ms) (suc i) (ne, h) = omega (arith, IsPlaced-lt n ms i h)

pub IsPlaced-modify :
    (n : ℕ) (f : ClusterMember → ClusterMember)
    → ((m : ClusterMember) → (f m).id ≡ m.id)
    → (ms : List ClusterMember) (i j : ℕ) → IsPlaced n ms j
    → IsPlaced n (modify ms i f) j
IsPlaced-modify n f keeps [] i j h = h
IsPlaced-modify n f keeps (m ∷ ms) zero zero h = keeps m ∙ h
IsPlaced-modify n f keeps (m ∷ ms) zero (suc j) (ne, h) = (λ e. ne (sym (keeps m) ∙ e), h)
IsPlaced-modify n f keeps (m ∷ ms) (suc i) zero h = h
IsPlaced-modify n f keeps (m ∷ ms) (suc i) (suc j) (ne, h) =
    (ne, IsPlaced-modify n f keeps ms i j h)

pub IsPlaced-append :
    (n : ℕ) (ms more : List ClusterMember) (i : ℕ) → IsPlaced n ms i → IsPlaced n (ms ++ more) i
IsPlaced-append n [] more i h = absurd h
IsPlaced-append n (m ∷ ms) more zero h = h
IsPlaced-append n (m ∷ ms) more (suc i) (ne, h) = (ne, IsPlaced-append n ms more i h)

-- The storage is no part of it.
pub IsValid-storage : (s : Server) (m : MemStorage) → IsValid s → IsValid (record s { storage = m })
IsValid-storage s m v = record {
  placed = v.placed;
  rooted = v.rooted;
  started = v.started;
  storable = v.storable;
}

pub IsPlaced-get_elem? :
    (n : ℕ) (ms : List ClusterMember) (i : ℕ)
    → IsPlaced n ms i
    → (m : ClusterMember) × (get_elem? ms i ≡ some m) × (m.id ≡ n)
IsPlaced-get_elem? n [] i h = absurd h
IsPlaced-get_elem? n (m ∷ ms) zero h = (m, refl, h)
IsPlaced-get_elem? n (m ∷ ms) (suc i) (ne, h) = IsPlaced-get_elem? n ms i h

pub get_voted_for_total : (s : Server) → IsValid s → (v : ℕ) × (get_voted_for s ≡ ok v)
unfolding get_voted_for
get_voted_for_total s v =
    let (m, e, i) = IsPlaced-get_elem? s.id s.cluster s.cluster_index v.placed in
    (m.voted_for, rw e)

pub set_voted_for-IsValid :
    (x : ℕ) (s : Server)
    → IsValid s
    → (s' : Server) × (set_voted_for x s ≡ ok s')
      × IsValid s'
      × (s' ≡ record s { cluster = modify s.cluster s.cluster_index (with_vote x) })
unfolding set_voted_for
set_voted_for-IsValid x s v =
    let room : ltb s.cluster_index (length s.cluster) ≡ true =
      ground (arith, IsPlaced-lt s.id s.cluster s.cluster_index v.placed) in
    (
      record s { cluster = modify s.cluster s.cluster_index (with_vote x) },
      rw room,
      record {
        placed =
            IsPlaced-modify s.id (with_vote x) (λ m. refl) s.cluster s.cluster_index s.cluster_index
              v.placed;
        rooted = v.rooted;
        started = v.started;
        storable = v.storable;
      },
      refl,
    )

-- The vote at a position; 0 is no vote.
abbrev pub vote_at : List ClusterMember → ℕ → ℕ
vote_at [] i = 0
vote_at (m ∷ ms) zero = m.voted_for
vote_at (m ∷ ms) (suc i) = vote_at ms i

abbrev pub own_vote : Server → ℕ
own_vote s = vote_at s.cluster s.cluster_index

pub vote_at-modify_self :
    (f : ClusterMember → ClusterMember) (ms : List ClusterMember) (i : ℕ) (v : ℕ)
    → i < length ms
    → ((m : ClusterMember) → (f m).voted_for ≡ v)
    → vote_at (modify ms i f) i ≡ v
vote_at-modify_self f [] i v h e = elim h [ ]
vote_at-modify_self f (m ∷ ms) zero v h e = e m
vote_at-modify_self f (m ∷ ms) (suc i) v h e = vote_at-modify_self f ms i v (omega arith) e

pub vote_at-modify_ne :
    (f : ClusterMember → ClusterMember) (ms : List ClusterMember) (i j : ℕ)
    → i ≢ j
    → vote_at (modify ms i f) j ≡ vote_at ms j
vote_at-modify_ne f [] i j h = refl
vote_at-modify_ne f (m ∷ ms) zero zero h = absurd (h refl)
vote_at-modify_ne f (m ∷ ms) zero (suc j) h = refl
vote_at-modify_ne f (m ∷ ms) (suc i) zero h = refl
vote_at-modify_ne f (m ∷ ms) (suc i) (suc j) h = vote_at-modify_ne f ms i j (λ e. h (ap suc e))

vote_at_of_get :
    (ms : List ClusterMember) (i : ℕ) {m : ClusterMember}
    → get_elem? ms i ≡ some m
    → vote_at ms i ≡ m.voted_for
vote_at_of_get [] i e = cc
vote_at_of_get (x ∷ ms) zero e = ground arith
vote_at_of_get (x ∷ ms) (suc i) e = vote_at_of_get ms i e

pub get_voted_for-own_vote : (s : Server) → IsValid s → get_voted_for s ≡ ok (own_vote s)
unfolding get_voted_for
get_voted_for-own_vote s v =
    let (m, e, i) = IsPlaced-get_elem? s.id s.cluster s.cluster_index v.placed in
    rw e (ap ok (sym (vote_at_of_get s.cluster s.cluster_index e)))
