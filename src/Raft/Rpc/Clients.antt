-- ===== src/Raft/Rpc/Clients.antt =====
-- The clients that are kept are open, and connected to the address that they are kept for.
use navi_kv.Prelude.{
  ℕ, ◌≡◌, ◌≢◌, refl, sym, ap, ◌∙◌, true, false, Option, none, some, List, [], ◌∷◌, All, Bool-cases,
  Option-cases, inl, inr,
}
use navi_kv.Bytes.{Bytes, bytes_eq}
use navi_kv.Bytes.Laws.{bytes_eq_refl, bytes_eq_iff}
use navi_kv.Raft.Rpc.{
  RpcTransport, client_of, without, dial, dial_new, evict, CallEnd, answered, failed, timed_out,
  end_call,
}

-- `owner c` is the address that client `c` is connected to.
module _ (owner : ℕ → Bytes) where
  abbrev IsOpen : List ℕ → ℕ → Type 0
  IsOpen closed c = All (λ d. c ≢ d) closed

  abbrev IsKept : List ℕ → Bytes × ℕ → Type 0
  IsKept closed (a, c) = (owner c ≡ a) × IsOpen closed c

  pub record AreOpen (t : RpcTransport) : Type 0 where
    pub kept : All (IsKept t.closed) t.clients

  -- A new connection has a client that was not there before.
  abbrev pub IsNew : Bytes → RpcTransport → Option ℕ → Type 0
  IsNew address t none = Unit
  IsNew address t (some c) = (owner c ≡ address) × IsOpen t.closed c

  client_of-IsKept :
      (closed : List ℕ) (address : Bytes) (cs : List (Bytes × ℕ)) {c : ℕ}
      → All (IsKept closed) cs
      → client_of address cs ≡ some c
      → (owner c ≡ address) × IsOpen closed c
  unfolding client_of
  client_of-IsKept closed address [] h e = cc
  client_of-IsKept closed address ((a, d) ∷ cs) {c} ((own, open'), h) e =
      elim (Bool-cases (bytes_eq a address)) [
        | inl same ↦
            let found : some d ≡ some c = rw same at e in
            let eq : d ≡ c = cc in rw (← eq) (own ∙ (bytes_eq_iff a address).0 same, open')
        | inr other ↦ client_of-IsKept closed address cs h (rw other at e)
      ]

  -- Clients of different addresses are different.
  apart_of :
      (a address : Bytes) (c d : ℕ)
      → owner c ≡ address
      → bytes_eq a address ≡ false
      → owner d ≡ a
      → d ≢ c
  apart_of a address c d own other own' e =
      let both : bytes_eq a address ≡ true =
        (bytes_eq_iff a address).1 (sym own' ∙ ap owner e ∙ own) in
      cc

  -- Other clients than `c`, which belongs to `address`, are open when `c` has been closed.
  without-IsKept :
      (closed : List ℕ) (address : Bytes) (c : ℕ) (cs : List (Bytes × ℕ))
      → owner c ≡ address
      → All (IsKept closed) cs
      → All (IsKept (c ∷ closed)) (without address cs)
  unfolding without
  without-IsKept closed address c [] own h = tt
  without-IsKept closed address c ((a, d) ∷ cs) own ((own', open'), h) =
      elim (Bool-cases (bytes_eq a address)) [
        | inl same ↦ rw same (without-IsKept closed address c cs own h)
        | inr other ↦ rw other (
          (own', (apart_of a address c d own other own', open')),
          without-IsKept closed address c cs own h,
        )
      ]

  -- `dial` gives a client of the address.
  dial-AreOpen :
      (address : Bytes) (dialed : Option ℕ) (t : RpcTransport)
      → AreOpen t
      → IsNew address t dialed
      → AreOpen (dial address dialed t).1 × IsNew address t (dial address dialed t).0
  unfolding dial
  dial-AreOpen address dialed t o new = elim (Option-cases (client_of address t.clients)) [
    | inl missing ↦ rw missing (of_new dialed new)
    | inr (c, here) ↦ rw here (o, client_of-IsKept t.closed address t.clients o.kept here)
  ]
    where
      of_new :
          (dialed : Option ℕ)
          → IsNew address t dialed
          → AreOpen (dial_new address dialed t).1 × IsNew address t (dial_new address dialed t).0
      of_new none new = (o, tt)
      of_new (some c) new = (record { kept = (new, o.kept) }, new)

  end_call-AreOpen :
      (address : Bytes) (c : ℕ) (how : CallEnd) (t : RpcTransport)
      → AreOpen t
      → owner c ≡ address
      → AreOpen (end_call address c how t)
  unfolding end_call evict
  end_call-AreOpen address c answered t o own = o
  end_call-AreOpen address c failed t o own = record {
    kept = without-IsKept t.closed address c t.clients own o.kept;
  }
  end_call-AreOpen address c timed_out t o own = record {
    kept = without-IsKept t.closed address c t.clients own o.kept;
  }

  -- Parts of calls in any order: one dials, or one ends that has had a client of its address.
  pub data CallRun (t : RpcTransport) : RpcTransport → Type 0 where
    no_part : CallRun t t
    dialing :
        (address : Bytes) (dialed : Option ℕ) {t' : RpcTransport}
        → CallRun t t'
        → IsNew address t' dialed
        → CallRun t (dial address dialed t').1
    ending :
        (address : Bytes) (c : ℕ) (how : CallEnd) {t' : RpcTransport}
        → CallRun t t'
        → owner c ≡ address
        → CallRun t (end_call address c how t')

  -- Whatever calls dial and end, in whatever order, every client that is kept stays open and
  -- connected to the address that it is kept for, and a call that dials next gets no other client
  -- than one of its address that is open. New connections have clients that were not there before,
  -- and a call ends with a client of its address.
  pub CallRun-AreOpen :
      {t t' : RpcTransport} (address : Bytes) (dialed : Option ℕ)
      → AreOpen t
      → CallRun t t'
      → IsNew address t' dialed
      → AreOpen t' × IsNew address t' (dial address dialed t').0
  CallRun-AreOpen {t} {t'} address dialed o run new =
      let all_open = along o run in (all_open, (dial-AreOpen address dialed t' all_open new).1)
    where
      along : {t' : RpcTransport} → AreOpen t → CallRun t t' → AreOpen t'
      along o no_part = o
      along o (dialing a d {t'} run new) = (dial-AreOpen a d t' (along o run) new).0
      along o (ending a c how {t'} run own) = end_call-AreOpen a c how t' (along o run) own

-- The client that is dropped from the cache is the one that is kept for the address, which may be
-- another than the one that is closed; that one then stays open.
pub evict_drops_other :
    (address : Bytes) (c d : ℕ) (t : RpcTransport)
    → t.clients ≡ (address, d) ∷ []
    → (client_of address (evict address c t).clients ≡ none)
      × ((evict address c t).closed ≡ c ∷ t.closed)
unfolding evict without client_of
evict_drops_other address c d t kept = rw (kept, bytes_eq_refl address) (refl, refl)
