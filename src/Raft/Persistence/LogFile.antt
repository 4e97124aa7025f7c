-- ===== src/Raft/Persistence/LogFile.antt =====
-- The slots behind the page: what the encoded entries are, and how they are read back.
use navi_kv.Prelude.{◌+◌, ◌*◌, ◌≡◌, refl, sym, ap, ◌∙◌, arith}
use navi_kv.Prelude.{List, [], ◌∷◌, ◌++◌, map, some, none, true, leb, ◌==◌}
use navi_kv.Prelude.{ok, length, drop, All, length-append, length-drop, append_assoc}
use navi_kv.Bytes.{Bytes, IsU64, put_u64, get_u64, slice}
use navi_kv.Bytes.Laws.{get_u64_middle, slice_middle, length-to_le}
use navi_kv.Raft.State.{Entry}
use navi_kv.Raft.Config.{entry_size, entry_header}
use navi_kv.Raft.Invariant.{IsStorableEntry}
use navi_kv.Raft.Storage.{read}
use navi_kv.Raft.Storage.Writing.{read_middle}
use navi_kv.Raft.Persistence.{entry_bytes, encode_entries, read_entries}

-- An entry as it comes back: it has no channel.
abbrev pub restored : Entry → Entry
restored e = record e { result = none }

-- The slot holds the entry: its term, the length of its command, and the command.
pub record IsStored (e : Entry) (slot : Bytes) : Type 0 where
  pub size : length slot ≡ entry_size
  pub term : get_u64 slot 0 ≡ ok e.term
  pub count : get_u64 slot 8 ≡ ok (length e.command)
  pub command : slice slot 16 (16 + length e.command) ≡ ok e.command

-- The slots of a log, one behind the other.
abbrev pub StoredLog : Bytes → List Entry → Type 0
StoredLog bs [] = bs ≡ []
StoredLog bs (e ∷ es) =
    (slot : Bytes) × (rest : Bytes) × (bs ≡ slot ++ rest) × IsStored e slot × StoredLog rest es

abbrev pub HasTermU64 : Entry → Type 0
HasTermU64 e = IsU64 e.term

pub length-StoredLog :
    (bs : Bytes) (es : List Entry) → StoredLog bs es → length bs ≡ entry_size * length es
length-StoredLog bs [] h = rw h refl
length-StoredLog bs (e ∷ es) (slot, rest, split, is, h) =
    omega (arith, ap length split, length-append slot rest, is.size, length-StoredLog rest es h)

pub StoredLog-append :
    (front bs : Bytes) (xs ys : List Entry)
    → StoredLog front xs
    → StoredLog bs ys
    → StoredLog (front ++ bs) (xs ++ ys)
StoredLog-append front bs [] ys h k = rw h k
StoredLog-append front bs (x ∷ xs) ys (slot, rest, split, is, h) k =
    (slot, rest ++ bs, rw split (append_assoc slot rest bs), is, StoredLog-append rest bs xs ys h k)

-- The buffer of one entry holds it, whatever the last entry has left there.
entry_bytes-IsStored :
    (buffer : Bytes) (e : Entry)
    → length buffer ≡ entry_size
    → IsStorableEntry e
    → HasTermU64 e
    → IsStored e (entry_bytes buffer e)
entry_bytes-IsStored buffer e size storable term =
    let left = drop (entry_header + length e.command) buffer in
    let n = put_u64 (length e.command) in
    let body = n ++ (e.command ++ left) in
    let header : length (put_u64 e.term ++ n) ≡ 16 = omega (
      arith,
      length-append (put_u64 e.term) n,
      length-to_le 8 e.term,
      length-to_le 8 (length e.command),
    ) in
    let grouped : (put_u64 e.term ++ n) ++ (e.command ++ left) ≡ entry_bytes buffer e =
      append_assoc (put_u64 e.term) n (e.command ++ left) in
    record {
      size = omega (
        arith,
        length-append (put_u64 e.term) body,
        length-append n (e.command ++ left),
        length-append e.command left,
        length-drop (entry_header + length e.command) buffer,
        length-to_le 8 e.term,
        length-to_le 8 (length e.command),
        storable.fits,
        size,
      );
      term = get_u64_middle [] body 0 e.term refl term;
      count =
          get_u64_middle (put_u64 e.term) (e.command ++ left) 8 (length e.command)
            (sym (length-to_le 8 e.term)) (omega (arith, storable.fits));
      command =
          ap (λ b. slice b 16 (16 + length e.command)) (sym grouped)
          ∙ slice_middle (put_u64 e.term ++ n) e.command left 16 (16 + length e.command)
              (sym header) (omega (arith, header));
    }

-- What the loop of `persist` hands on is the log in slots.
pub encode_entries-StoredLog :
    (buffer : Bytes) (es : List Entry)
    → length buffer ≡ entry_size
    → All IsStorableEntry es
    → All HasTermU64 es
    → (out : Bytes) × (encode_entries buffer es ≡ ok out) × StoredLog out es
unfolding encode_entries
encode_entries-StoredLog buffer [] size storable terms = ([], refl, refl)
encode_entries-StoredLog buffer (e ∷ es) size (storable, h) (term, k) =
    let is = entry_bytes-IsStored buffer e size storable term in
    let (out, p, stored) = encode_entries-StoredLog (entry_bytes buffer e) es is.size h k in
    let fits : leb (length e.command) 112 ≡ true = ground (arith, storable.fits) in
    (entry_bytes buffer e ++ out, rw (fits, p) refl, (entry_bytes buffer e, out, refl, is, stored))

-- The loop of `restore` reads the log back.
pub read_entries-StoredLog :
    (front slots back : Bytes) (es : List Entry)
    → StoredLog slots es
    → read_entries (length es) (record { bytes = front ++ (slots ++ back); pos = length front })
      ≡ ok (
        map restored es,
        record { bytes = front ++ (slots ++ back); pos = length front + length slots },
      )
unfolding read_entries
read_entries-StoredLog front slots back [] h =
    let end : length front ≡ length front + length slots = omega (arith, ap length h) in
    ap (λ p. ok ([], record { bytes = front ++ (slots ++ back); pos = p })) end
read_entries-StoredLog front slots back (e ∷ es) (slot, rest, split, is, h) =
    let whole = front ++ (slots ++ back) in
    let inner : slot ++ (rest ++ back) ≡ slots ++ back =
      sym (append_assoc slot rest back) ∙ ap (λ b. b ++ back) (sym split) in
    let shape : front ++ (slot ++ (rest ++ back)) ≡ whole = ap (λ b. front ++ b) inner in
    let first : read entry_size (record { bytes = whole; pos = length front })
        ≡ (some slot, record { bytes = whole; pos = length front + entry_size }) =
      rw (shape, is.size) at (read_middle front slot (rest ++ back) (omega (arith, is.size))) in
    let same : (length slot == entry_size) ≡ true = ground (arith, is.size) in
    let next : length (front ++ slot) ≡ length front + entry_size =
      omega (arith, length-append front slot, is.size) in
    let end : length (front ++ slot) + length rest ≡ length front + length slots =
      omega (arith, next, ap length split, length-append slot rest, is.size) in
    let group : (front ++ slot) ++ (rest ++ back) ≡ whole =
      append_assoc front slot (rest ++ back) ∙ shape in
    let others : read_entries (length es)
          (record { bytes = whole; pos = length front + entry_size })
        ≡ ok (map restored es, record { bytes = whole; pos = length front + length slots }) =
      rw (group, end, next) at (read_entries-StoredLog (front ++ slot) rest back es h) in
    rw (first, same, is.term, is.count, is.command, others) refl
