-- ===== src/Console/Compose/Booting.antt =====
-- The nodes of a compose file read their command line as the members of one cluster.
use navi_kv.Prelude.{
  ℕ, zero, suc, ◌+◌, ◌^◌, ◌<◌, ◌≡◌, refl, arith, Bool, true, false, List, [], ◌∷◌, ◌++◌, ◌==◌,
  if◌then◌else◌, All, All-append, length,
}
use navi_kv.Prelude.Int.{pos}
use navi_kv.Bytes.{Bytes, IsU64}
use navi_kv.Text.{text, to_decimal, split, join, is_digit}
use navi_kv.Text.Decimal.{
  All-digits, Digits, to_decimal-Digits, Digits-append, parse_uint-to_decimal, atoi-to_decimal,
}
use navi_kv.Text.Splitting.{Lacks, split_whole, split_part, split-join}
use navi_kv.Raft.State.{ClusterMember}
use navi_kv.Raft.Config.{new_member}
use navi_kv.Kv.Startup.{
  ready, Config, nothing_read, read_member, read_members, read_arguments, check_ids, seen_id,
  check_config, get_config,
}
use navi_kv.Kv.Startup.Flags.{
  read_node, read_http, read_cluster, read_pending_join, read_port, read_argument-Digits,
}
use navi_kv.Console.Compose.{
  raft_address, cluster_spec, cluster_parts, cluster_string, ComposeNode, node_command,
}

-- The members `i`, `i + 1`, ... of a cluster.
abbrev pub members_from : ℕ → ℕ → List ClusterMember
members_from zero i = []
members_from (suc count) i = new_member i (raft_address i) ∷ members_from count (suc i)

to_decimal-Lacks : (sep n : ℕ) → is_digit sep ≡ false → Lacks sep (to_decimal n)
unfolding to_decimal
to_decimal-Lacks sep n h =
    All-digits (λ c. (c == sep) ≡ false) (λ d lt. ground (arith, h)) (suc n) n [] tt

address-Lacks :
    (sep n : ℕ)
    → is_digit sep ≡ false
    → Lacks sep (text "node")
    → Lacks sep (text ":3030")
    → Lacks sep (raft_address n)
unfolding raft_address
address-Lacks sep n h front back =
    All-append (λ c. (c == sep) ≡ false) (text "node") (to_decimal n ++ text ":3030") front
      (All-append (λ c. (c == sep) ≡ false) (to_decimal n) (text ":3030") (to_decimal-Lacks sep n h)
        back)

spec-Lacks : (n : ℕ) → Lacks b';' (cluster_spec n)
unfolding cluster_spec
spec-Lacks n =
    All-append (λ c. (c == b';') ≡ false) (to_decimal n) (b',' ∷ raft_address n)
      (to_decimal-Lacks b';' n refl)
      (
        refl,
        address-Lacks b';' n refl (refl, (refl, (refl, (refl, tt))))
            (refl, (refl, (refl, (refl, (refl, tt))))),
      )

pub read_member-cluster_spec :
    (i : ℕ) → IsU64 i → read_member (cluster_spec i) ≡ ready (new_member i (raft_address i))
unfolding cluster_spec
read_member-cluster_spec i u =
    let lacks : Lacks b',' (raft_address i) =
      address-Lacks b',' i refl (refl, (refl, (refl, (refl, tt))))
        (refl, (refl, (refl, (refl, (refl, tt))))) in
    rw
      (
        split_part b',' (to_decimal i) (raft_address i) (to_decimal-Lacks b',' i refl),
        parse_uint-to_decimal i u,
        split_whole b',' (raft_address i) lacks,
      )
      refl

pub read_members-cluster_parts :
    (count i : ℕ)
    → IsU64 (i + count)
    → read_members (cluster_parts count i) ≡ ready (members_from count i)
unfolding cluster_parts read_members
read_members-cluster_parts zero i u = refl
read_members-cluster_parts (suc count) i u =
    rw
      (
        read_member-cluster_spec i (omega arith),
        read_members-cluster_parts count (suc i) (omega arith),
      )
      refl

parts-Lacks : (count i : ℕ) → All (Lacks b';') (cluster_parts count i)
unfolding cluster_parts
parts-Lacks zero i = tt
parts-Lacks (suc count) i = (spec-Lacks i, parts-Lacks count (suc i))

pub split-cluster_string : (n : ℕ) → split b';' (cluster_string (suc n)) ≡ cluster_parts (suc n) 1
unfolding cluster_string cluster_parts
split-cluster_string n =
    split-join b';' (cluster_spec 1) (cluster_parts n 2) (spec-Lacks 1, parts-Lacks n 2)

-- A cluster of one.
pub split-cluster_spec : (i : ℕ) → split b';' (cluster_spec i) ≡ cluster_parts 1 i
unfolding cluster_parts
split-cluster_spec i = split_whole b';' (cluster_spec i) (spec-Lacks i)

pub spec-Digits : (n : ℕ) → Digits (cluster_spec n)
unfolding cluster_spec
spec-Digits n = Digits-append (to_decimal n) (b',' ∷ raft_address n) (to_decimal-Digits n)

pub string-Digits : (n : ℕ) → Digits (cluster_string (suc n))
unfolding cluster_string cluster_parts join
string-Digits zero = spec-Digits 1
string-Digits (suc n) =
    Digits-append (cluster_spec 1) (b';' ∷ join b';' (cluster_spec 2 ∷ cluster_parts n 3))
      (spec-Digits 1)

seen_id-lt : (i : ℕ) (seen : List ℕ) → All (λ j. j < i) seen → seen_id i seen ≡ false
unfolding seen_id
seen_id-lt i [] h = refl
seen_id-lt i (j ∷ seen) (p, h) =
    let other : (j == i) ≡ false = ground arith in rw (other, seen_id-lt i seen h) refl

All-lt_suc : (i : ℕ) (seen : List ℕ) → All (λ j. j < i) seen → All (λ j. j < suc i) seen
All-lt_suc i [] h = tt
All-lt_suc i (j ∷ seen) (p, h) = (omega arith, All-lt_suc i seen h)

pub check_ids-members_from :
    (count i : ℕ) (seen : List ℕ)
    → All (λ j. j < i) seen
    → check_ids seen (members_from count i) ≡ ready tt
unfolding check_ids
check_ids-members_from zero i seen h = refl
check_ids-members_from (suc count) i seen h =
    rw
      (
        seen_id-lt i seen h,
        check_ids-members_from count (suc i) (i ∷ seen) (omega arith, All-lt_suc i seen h),
      )
      refl

-- What a node of the compose file reads.
abbrev pub node_config : ℕ → List ClusterMember → Bool → Config
node_config index cluster joins = record {
  cluster = cluster;
  index = pos index;
  id = [];
  address = [];
  http = text ":2020";
  pending_join = joins;
}

-- The arguments of a node, before those of a node that joins.
arguments_read :
    (n : ℕ) (c : Bytes) (ms : List ClusterMember) (rest : List Bytes)
    → n < 2 ^ 63
    → Digits c
    → read_members (split b';' c) ≡ ready ms
    → read_arguments
        (text "--node" ∷ to_decimal n ∷ text "--http" ∷ text ":2020" ∷ text "--cluster" ∷ c ∷ rest)
        nothing_read
      ≡ read_arguments rest (record { config = node_config n ms false; node = to_decimal n })
unfolding read_arguments
arguments_read n c ms rest fits d members =
    rw
      (
        read_node _ _ (to_decimal n) (pos n) (atoi-to_decimal n fits),
        read_argument-Digits _ _ (to_decimal n) (to_decimal-Digits n),
        read_http _ _ (text ":2020"),
        read_port _ _,
        read_cluster _ _ c ms members,
        read_argument-Digits _ _ c d,
      )
      refl

joins_read :
    (joins : Bool) (n : ℕ) (c : Bytes) (ms : List ClusterMember)
    → read_arguments
        (if joins then text "--pending-join" ∷ [] else [])
        (record { config = node_config n ms false; node = c })
      ≡ ready (record { config = node_config n ms joins; node = c })
unfolding read_arguments
joins_read true n c ms =
    rw (read_pending_join [] (record { config = node_config n ms false; node = c })) refl
joins_read false n c ms = refl

-- `getConfig` reads the command line that the template gives a node, whatever the program's name.
pub get_config-node_command :
    (program : Bytes) (node : ComposeNode) (m : ClusterMember) (ms : List ClusterMember)
    → node.node_arg < 2 ^ 63
    → Digits node.cluster
    → read_members (split b';' node.cluster) ≡ ready (m ∷ ms)
    → check_ids [] (m ∷ ms) ≡ ready tt
    → get_config (program ∷ node_command node)
      ≡ ready (node_config node.node_arg (m ∷ ms) node.pending_join)
unfolding get_config check_config
get_config-node_command program node m ms fits d members distinct =
    let n = to_decimal-Digits node.node_arg in
    let is_node : (length (to_decimal node.node_arg) == 0) ≡ false = rw n.whole (ground arith) in
    let is_cluster : (length (m ∷ ms) == 0) ≡ false = ground arith in
    rw
      (
        arguments_read node.node_arg node.cluster (m ∷ ms)
            (if node.pending_join then text "--pending-join" ∷ [] else []) fits d members,
        joins_read node.pending_join node.node_arg (to_decimal node.node_arg) (m ∷ ms),
        is_node,
        is_cluster,
        distinct,
      )
      refl
