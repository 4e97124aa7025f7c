-- ===== src/Tests/Durability.antt =====
-- The durable state at concrete inputs.
use navi_kv.Prelude.{◌≡◌, refl, arith, true, List, [], ◌∷◌, ◌++◌, map, Returns, ok, drop}
use navi_kv.Bytes.{Bytes}
use navi_kv.Raft.State.{Server}
use navi_kv.Raft.Invariant.{IsValid-storage}
use navi_kv.Raft.Storage.{MemStorage}
use navi_kv.Raft.Persistence.{page_size, persist, restore}
use navi_kv.Raft.Persistence.LogFile.{restored}
use navi_kv.Raft.Persistence.Durable.{IsDurable, HasStored, HasU64, persist-IsDurable}
use navi_kv.Raft.Replication.{apply_commands}
use navi_kv.Raft.Replication.Submitting.{submitted}
use navi_kv.Raft.Replication.Surviving.{apply_commands-restore}
use navi_kv.Tests.Samples.{value_of}
use navi_kv.Tests.Elections.{byte_IsStorable}
use navi_kv.Tests.Logs.{lead, lead-IsValid}

lead-HasU64 : HasU64 lead
lead-HasU64 = record {
  term = omega arith;
  vote = omega arith;
  count = omega arith;
  terms = (omega arith, (omega arith, (omega arith, tt)));
}

lead-HasStored : HasStored 0 lead
lead-HasStored = record {
  slots = [];
  rest = drop page_size lead.storage.bytes;
  behind = refl;
  stored = refl;
}

persist-IsDurable_example :
    (m : MemStorage) × (persist true 0 lead ≡ ok (record lead { storage = m }))
    × IsDurable (record lead { storage = m })
persist-IsDurable_example =
    persist-IsDurable true 0 lead lead-IsValid lead-HasU64 (omega arith) lead-HasStored

-- The leader after its first write.
abbrev saved_lead : Server
saved_lead = record lead { storage = (value_of lead (persist true 0 lead)).storage }

saved_lead-IsDurable : IsDurable saved_lead
saved_lead-IsDurable =
    let (m, e, d) =
      persist-IsDurable true 0 lead lead-IsValid lead-HasU64 (omega arith) lead-HasStored in
    rw e d

saved_lead-HasU64 : HasU64 saved_lead
saved_lead-HasU64 = record {
  term = lead-HasU64.term;
  vote = lead-HasU64.vote;
  count = lead-HasU64.count;
  terms = lead-HasU64.terms;
}

abbrev two_commands : List Bytes
two_commands = (5 ∷ []) ∷ (4 ∷ []) ∷ []

apply_commands-restore_example :
    Returns
      (λ r.
        IsDurable r.1
        × Returns
            (λ s'.
              (s'.current_term ≡ 2)
              × (s'.log ≡ map restored (lead.log ++ submitted 2 0 two_commands)))
            (restore r.1))
      (apply_commands two_commands saved_lead)
apply_commands-restore_example =
    apply_commands-restore two_commands saved_lead
      (IsValid-storage lead (value_of lead (persist true 0 lead)).storage lead-IsValid)
      (byte_IsStorable 5 (omega arith), (byte_IsStorable 4 (omega arith), tt)) refl
      saved_lead-HasU64 (omega arith) saved_lead-IsDurable
