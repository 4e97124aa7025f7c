-- ===== src/Kv/Machine.antt =====
-- The state machine against its specification: a get returns what the last set of its key wrote.
use navi_kv.Prelude.{◌≡◌, refl, ap, ◌∙◌}
use navi_kv.Prelude.{◌&&◌, Option, none, some, List, [], ◌∷◌, arith}
use navi_kv.Prelude.{◌==◌, if◌then◌else◌, Bool-cases}
use navi_kv.Prelude.{Outcome, ok, ◌>>=◌, Returns, Returns-bind, Returns-map}
use navi_kv.Prelude.{All}
use navi_kv.Prelude.{inl, inr}
use navi_kv.Bytes.{Bytes, bytes_eq}
use navi_kv.Bytes.Laws.{bytes_eq_iff}
use navi_kv.Kv.{Command, encode_command, set_command, get_command, Db, load, store}
use navi_kv.Kv.{execute, apply, Result, found}
use navi_kv.Kv.RoundTrip.{IsCommand, received, decode-encode_command}

load-store :
    (k j v : Bytes) (db : Db) → load j (store k v db) ≡ (if bytes_eq k j then some v else load j db)
unfolding load store
load-store k j v [] = refl
load-store k j v ((i, w) ∷ db) =
    ground (arith, bytes_eq_iff i k, bytes_eq_iff i j, bytes_eq_iff k j, load-store k j v db)

-- The value of the key after a history, oldest command first, from what was there before.
unfoldable pub last_value : Bytes → Option Bytes → List Command → Option Bytes
last_value k before [] = before
last_value k before (c ∷ cs) =
    last_value k (if c.kind == set_command && bytes_eq c.key k then some c.value else before) cs

-- The state machine after the encoded commands of a history.
unfoldable pub apply_all : List Command → Db → Outcome Db
apply_all [] db = ok db
apply_all (c ∷ cs) db = do (r, db') ← apply (encode_command c) db; apply_all cs db'

-- One command: what it answers, and what it does to each key.
pub record Applied (c : Command) (db : Db) (r : Result) (db' : Db) : Type 0 where
  pub loads :
      (k : Bytes)
      → load k db' ≡ (if c.kind == set_command && bytes_eq c.key k then some c.value else load k db)
  pub answer : c.kind ≡ get_command → r ≡ found (load c.key db)

execute-Applied :
    (msg : Bytes) (c : Command) (db : Db)
    → Applied c db (execute msg (received c) db).0 (execute msg (received c) db).1
unfolding execute
execute-Applied msg c db = elim (Bool-cases (c.kind == set_command)) [
  | inl set' ↦ rw set' (
      rw set' (record {
        loads = λ k. load-store c.key k c.value db ∙ rw set';
        answer = λ h. absurd (ground arith);
      }))
  | inr other ↦ rw other (
      rw other (elim (Bool-cases (c.kind == get_command)) [
        | inl get' ↦ rw get' (record { loads = λ k. rw other; answer = λ h. refl })
        | inr unknown ↦
            rw unknown (record { loads = λ k. rw other; answer = λ h. absurd (ground arith) })
      ]))
]

-- `Apply` of an encoded command returns; a set writes its key and no other, a get changes nothing
-- and answers the value of its key, or that there is none.
pub apply_lem :
    (c : Command) (db : Db)
    → IsCommand c
    → Returns (λ r. Applied c db r.0 r.1) (apply (encode_command c) db)
unfolding apply
apply_lem c db is = rw (decode-encode_command c is) (execute-Applied (encode_command c) c db)

apply_all_loads :
    (cs : List Command) (db : Db)
    → All IsCommand cs
    → Returns (λ db'. (k : Bytes) → load k db' ≡ last_value k (load k db) cs) (apply_all cs db)
unfolding apply_all last_value
apply_all_loads [] db h = λ k. refl
apply_all_loads (c ∷ cs) db (is, h) =
    Returns-bind (λ r. Applied c db r.0 r.1)
      (λ db'. (k : Bytes) → load k db' ≡ last_value k (load k db) (c ∷ cs))
      (apply (encode_command c) db) (λ r. apply_all cs r.1) (apply_lem c db is)
      λ r e a.
        Returns-map (λ db'. (k : Bytes) → load k db' ≡ last_value k (load k r.1) cs)
          (λ db'. (k : Bytes) → load k db' ≡ last_value k (load k db) (c ∷ cs)) (apply_all cs r.1)
          (apply_all_loads cs r.1 h) λ db' e' l k. l k ∙ ap (λ o. last_value k o cs) (a.loads k)

-- From an empty map, after any history of encoded sets and gets with texts shorter than 2 ^ 62
-- bytes, nothing has panicked, and a get of a key answers the value of the last set of that key in
-- the history, or `key not found` if the history has none.
pub get_last_set :
    (cs : List Command) (g : Command)
    → All IsCommand cs
    → IsCommand g
    → g.kind ≡ get_command
    → Returns
        (λ r. r.0 ≡ found (last_value g.key none cs))
        (apply_all cs [] >>= λ db. apply (encode_command g) db)
get_last_set cs g h is kind =
    Returns-bind (λ db. (k : Bytes) → load k db ≡ last_value k none cs)
      (λ r. r.0 ≡ found (last_value g.key none cs)) (apply_all cs [])
      (λ db. apply (encode_command g) db) (unfold load in apply_all_loads cs [] h)
      λ db e l.
        Returns-map (λ r. Applied g db r.0 r.1) (λ r. r.0 ≡ found (last_value g.key none cs))
          (apply (encode_command g) db) (apply_lem g db is)
          λ r e' a. a.answer kind ∙ ap found (l g.key)
