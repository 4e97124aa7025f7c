-- ===== src/Kv/Startup/Flags.antt =====
-- What one argument of the command line does.
use navi_kv.Prelude.{◌≡◌, refl, arith, true, false, List, ◌∷◌, ◌++◌, some, ◌==◌}
use navi_kv.Prelude.Int.{ℤ}
use navi_kv.Bytes.{Bytes, bytes_eq}
use navi_kv.Text.{text, atoi, split}
use navi_kv.Text.Decimal.{Digits}
use navi_kv.Raft.State.{ClusterMember}
use navi_kv.Kv.Startup.{ready, Reading, read_members, read_argument}

module _ (rest : List Bytes) (r : Reading) where
  pub read_node :
      (node : Bytes) (i : ℤ)
      → atoi node ≡ some i
      → read_argument (text "--node") (node ∷ rest) r
        ≡ ready (record { config = record r.config { index = i }; node = node })
  unfolding read_argument bytes_eq
  read_node node i h = rw h refl

  pub read_http :
      (http : Bytes)
      → read_argument (text "--http") (http ∷ rest) r
        ≡ ready (record r { config = record r.config { http = http } })
  unfolding read_argument bytes_eq
  read_http http = refl

  pub read_cluster :
      (cluster : Bytes) (ms : List ClusterMember)
      → read_members (split b';' cluster) ≡ ready ms
      → read_argument (text "--cluster") (cluster ∷ rest) r
        ≡ ready (record r { config = record r.config { cluster = r.config.cluster ++ ms } })
  unfolding read_argument bytes_eq
  read_cluster cluster ms h = rw h refl

  pub read_pending_join :
      read_argument (text "--pending-join") rest r
      ≡ ready (record r { config = record r.config { pending_join = true } })
  unfolding read_argument bytes_eq
  read_pending_join = refl

  -- The port that every node serves is no flag.
  pub read_port : read_argument (text ":2020") rest r ≡ ready r
  unfolding read_argument bytes_eq
  read_port = refl

  -- A value that starts with a digit is no flag.
  pub read_argument-Digits : (arg : Bytes) → Digits arg → read_argument arg rest r ≡ ready r
  unfolding read_argument bytes_eq
  read_argument-Digits arg d =
      let dash : (d.first == b'-') ≡ false = ground (arith, d.digit) in rw (d.whole, dash) refl
