-- ===== src/Kv/Startup/Checked.antt =====
-- What `getConfig` has checked when it returns.
use navi_kv.Prelude.{
  ℕ, ◌≡◌, ◌≢◌, refl, arith, false, List, [], ◌∷◌, ◌==◌, length, All, All-append, All-map, get_elem?,
  inl, inr, Bool-cases,
}
use navi_kv.Bytes.{Bytes, IsU64, bytes_eq}
use navi_kv.Text.{text, split, parse_uint, atoi}
use navi_kv.Text.Ranges.{IsInt64, parse_uint-IsU64, atoi-IsInt64}
use navi_kv.Raft.State.{ClusterMember}
use navi_kv.Kv.Startup.Going.{
  Goes, Goes-bind, Goes-map, Goes-if, Goes-or_fatal, Goes-or_crash, Goes-ready, anything,
}
use navi_kv.Kv.Startup.{
  bad_node, bad_member, or_crash, ready, Config, Reading, nothing_read, read_member, read_members,
  read_argument, read_arguments, seen_id, check_ids, check_config, get_config,
}

abbrev pub HasU64Id : ClusterMember → Type 0
HasU64Id m = IsU64 m.id

read_member-HasU64Id : (part : Bytes) → Goes HasU64Id (read_member part)
read_member-HasU64Id part =
    let parts = split b',' part in
    Goes-bind (λ a. Unit {0}) HasU64Id _ _
      (Goes-or_crash (λ a. Unit {0}) (get_elem? parts 0) (anything (get_elem? parts 0)))
      λ first h.
        Goes-bind IsU64 HasU64Id _ _
          (Goes-or_fatal IsU64 (bad_member parts) (parse_uint first) (parse_uint-IsU64 first))
          λ id u.
            Goes-bind (λ a. Unit {0}) HasU64Id _ _
              (Goes-or_crash (λ a. Unit {0}) (get_elem? parts 1) (anything (get_elem? parts 1)))
              λ address h'. u

read_members-HasU64Id : (parts : List Bytes) → Goes (All HasU64Id) (read_members parts)
unfolding read_members
read_members-HasU64Id [] = tt
read_members-HasU64Id (part ∷ parts) =
    Goes-bind HasU64Id (All HasU64Id) (read_member part) _ (read_member-HasU64Id part) λ m u.
      Goes-bind (All HasU64Id) (All HasU64Id) (read_members parts) _ (read_members-HasU64Id parts)
        λ ms us. (u, us)

-- What every round of the loop keeps.
abbrev HasRanges : Reading → Type 0
HasRanges r = All HasU64Id r.config.cluster × IsInt64 r.config.index

read_argument-HasRanges :
    (arg : Bytes) (rest : List Bytes) (r : Reading)
    → HasRanges r
    → Goes HasRanges (read_argument arg rest r)
unfolding read_argument
read_argument-HasRanges arg rest r (us, u) =
    let value : Goes (λ a. Unit {0}) (or_crash (get_elem? rest 0)) =
      Goes-or_crash (λ a. Unit {0}) (get_elem? rest 0) (anything (get_elem? rest 0)) in
    Goes-if HasRanges (bytes_eq arg (text "--node")) _ _
      (Goes-bind (λ a. Unit {0}) HasRanges _ _ value
        λ node h.
          Goes-bind IsInt64 HasRanges _ _
            (Goes-or_fatal IsInt64 (bad_node node) (atoi node) (atoi-IsInt64 node))
            λ index u'. (us, u'))
      (Goes-if HasRanges (bytes_eq arg (text "--http")) _ _
        (Goes-bind (λ a. Unit {0}) HasRanges _ _ value λ http h. (us, u))
        (Goes-if HasRanges (bytes_eq arg (text "--cluster")) _ _
          (Goes-bind (λ a. Unit {0}) HasRanges _ _ value
            λ cluster h.
              Goes-bind (All HasU64Id) HasRanges _ _ (read_members-HasU64Id (split b';' cluster))
                λ ms us'. (All-append HasU64Id r.config.cluster ms us us', u))
          (Goes-if HasRanges (bytes_eq arg (text "--pending-join")) _ _ (us, u) (us, u))))

read_arguments-HasRanges :
    (args : List Bytes) (r : Reading) → HasRanges r → Goes HasRanges (read_arguments args r)
unfolding read_arguments
read_arguments-HasRanges [] r h = h
read_arguments-HasRanges (arg ∷ rest) r h =
    Goes-bind HasRanges HasRanges (read_argument arg rest r) _
      (read_argument-HasRanges arg rest r h) (read_arguments-HasRanges rest)

-- No two members have one id.
abbrev pub AreDistinct : List ClusterMember → Type 0
AreDistinct [] = Unit
AreDistinct (m ∷ ms) = All (λ k. m.id ≢ k.id) ms × AreDistinct ms

Unseen : List ℕ → ClusterMember → Type 0
Unseen seen m = seen_id m.id seen ≡ false

Unseen-tail : (seen : List ℕ) (j : ℕ) (k : ClusterMember) → Unseen (j ∷ seen) k → Unseen seen k
unfolding Unseen seen_id
Unseen-tail seen j k h = ground (arith, h)

Unseen-head : (seen : List ℕ) (j : ℕ) (k : ClusterMember) → Unseen (j ∷ seen) k → j ≢ k.id
unfolding Unseen seen_id
Unseen-head seen j k h = ground (arith, h)

-- The loop ends only if no id is among those before, nor twice among the others.
check_ids-AreDistinct :
    (seen : List ℕ) (ms : List ClusterMember)
    → Goes (λ done. All (Unseen seen) ms × AreDistinct ms) (check_ids seen ms)
unfolding check_ids Unseen
check_ids-AreDistinct seen [] = (tt, tt)
check_ids-AreDistinct seen (m ∷ ms) = elim (Bool-cases (seen_id m.id seen)) [
  | inl e ↦ rw e tt
  | inr e ↦ rw e (
      Goes-map (λ done. All (Unseen (m.id ∷ seen)) ms × AreDistinct ms) _
        (check_ids (m.id ∷ seen) ms) (check_ids-AreDistinct (m.id ∷ seen) ms)
        λ done (unseen, distinct). (
          (refl, All-map (Unseen (m.id ∷ seen)) (Unseen seen) (Unseen-tail seen m.id) ms unseen),
          (
            All-map (Unseen (m.id ∷ seen)) (λ k. m.id ≢ k.id) (Unseen-head seen m.id) ms unseen,
            distinct,
          ),
        ))
]

-- A config that `getConfig` returns.
pub record IsChecked (c : Config) : Type 0 where
  pub http : c.http ≢ []
  pub members : c.cluster ≢ []
  pub distinct : AreDistinct c.cluster
  pub ids : All HasU64Id c.cluster
  pub index : IsInt64 c.index

not_empty : {A : Type 0} (xs : List A) → (length xs == 0) ≡ false → xs ≢ []
not_empty [] h = ground (arith, h)
not_empty (x ∷ xs) h = cc

check_config-IsChecked : (r : Reading) → HasRanges r → Goes IsChecked (check_config r)
unfolding check_config
check_config-IsChecked r (us, u) = elim (Bool-cases (length r.node == 0)) [
  | inl e ↦ rw e tt
  | inr e ↦ elim (Bool-cases (length r.config.http == 0)) [
    | inl e' ↦ rw (e, e') tt
    | inr e' ↦ elim (Bool-cases (length r.config.cluster == 0)) [
      | inl e'' ↦ rw (e, e', e'') tt
      | inr e'' ↦
          rw (e, e', e'')
            (Goes-bind (λ done. All (Unseen []) r.config.cluster × AreDistinct r.config.cluster)
              IsChecked (check_ids [] r.config.cluster) _
              (check_ids-AreDistinct [] r.config.cluster)
              λ done h. record {
                http = not_empty r.config.http e';
                members = not_empty r.config.cluster e'';
                distinct = h.1;
                ids = us;
                index = u;
              })
    ]
  ]
]

-- If `getConfig` returns, the config has an address for HTTP and a cluster, no two members of which
-- have one id, the ids are of 64 bits, and the index is in the range of an int64.
pub get_config-IsChecked :
    (args : List Bytes) (c : Config) → get_config args ≡ ready c → IsChecked c
unfolding get_config
get_config-IsChecked [] c e = cc
get_config-IsChecked (program ∷ args) c e = Goes-ready IsChecked _ c e (
    Goes-bind HasRanges IsChecked (read_arguments args nothing_read) check_config
      (read_arguments-HasRanges args nothing_read (tt, omega arith)) check_config-IsChecked)
