-- ===== src/Console/Logs.antt =====
-- cmd/navi-cli/logs.go: the level of a log line. `lower` and `contains` are `strings.ToLower` and
-- `strings.Contains`.
use navi_kv.Prelude.{Bool, ◌||◌, if◌then◌else◌}
use navi_kv.Bytes.{Bytes}
use navi_kv.Text.{text}

module _ (lower : Bytes → Bytes) (contains : Bytes → Bytes → Bool) where
  unfoldable pub classify_level : Bytes → Bytes
  classify_level line =
      if contains line (text "[WARN]")
      then text "WARN"
      else if contains (lower line) (text "error") || contains (lower line) (text "panic")
      then text "ERROR"
      else text "INFO"
