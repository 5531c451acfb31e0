-- ===== src/Lock/Queues.antt =====
-- lockStore.go, against its specification: each key has a queue of clients, whose head holds the lock.
use cs_350_boston_u.Base.{
  ◌≡◌, refl, sym, Bool, true, false, not, List, [], ◌∷◌, ◌++◌, if◌then◌else◌, Outcome, returns,
  arith, Bool-cases, inl, inr,
}
use cs_350_boston_u.Base.Comparable.{Comparable}
use cs_350_boston_u.Lock.{exists, filter}

module _ {ID : Type 0} ⦃ids : Comparable ID⦄ where
  -- The queue when a client comes to its end, unless it is in it.
  abbrev pub join : ID → List ID → List ID
  join id [] = id ∷ []
  join id (x ∷ q) = if ids.eqb id x then x ∷ q else x ∷ join id q

  -- The queue when a client goes.
  abbrev pub leave : ID → List ID → List ID
  leave id [] = []
  leave id (x ∷ q) = if ids.eqb id x then leave id q else x ∷ leave id q

  -- The holder is the head.
  abbrev pub holder : ID → List ID → Outcome (ID × Bool)
  holder nobody [] = returns (nobody, false)
  holder nobody (x ∷ q) = returns (x, true)

  abbrev pub Absent : ID → List ID → Type 0
  Absent id q = exists q (λ x. ids.eqb id x) ≡ false

  -- No client is in the queue twice.
  abbrev pub NoDup : List ID → Type 0
  NoDup [] = Unit
  NoDup (x ∷ q) = Absent x q × NoDup q

  pub holder_head :
      (nobody : ID) (q : List ID) (id : ID)
      → holder nobody q ≡ returns (id, true)
      → (rest : List ID) × (q ≡ id ∷ rest)
  holder_head nobody [] id h = cc
  holder_head nobody (x ∷ q) id h = (q, ground (arith, h))

  pub join_append :
      (id : ID) (q : List ID)
      → (if not (exists q (λ x. ids.eqb id x)) then q ++ id ∷ [] else q) ≡ join id q
  unfolding exists
  join_append id [] = refl
  join_append id (x ∷ q) = ground (arith, join_append id q)

  pub filter-leave : (id : ID) (q : List ID) → filter q (λ x. not (ids.eqb id x)) ≡ leave id q
  unfolding filter
  filter-leave id [] = refl
  filter-leave id (x ∷ q) = ground (arith, filter-leave id q)

  Absent-join : (x id : ID) (q : List ID) → Absent x q → ids.eqb x id ≡ false → Absent x (join id q)
  unfolding exists
  Absent-join x id [] h other = ground arith
  Absent-join x id (y ∷ q) h other = ground (arith, Absent-join x id q)

  Absent-leave : (x id : ID) (q : List ID) → Absent x q → Absent x (leave id q)
  unfolding exists
  Absent-leave x id [] h = refl
  Absent-leave x id (y ∷ q) h = ground (arith, Absent-leave x id q)

  pub leave-Absent : (id : ID) (q : List ID) → Absent id q → leave id q ≡ q
  unfolding exists
  leave-Absent id [] h = refl
  leave-Absent id (x ∷ q) h = ground (arith, leave-Absent id q)

  eqb_false : (a b : ID) → ids.eqb a b ≡ false → ids.eqb b a ≡ false
  eqb_false a b h = elim (Bool-cases (ids.eqb b a)) [
    | inr other ↦ other
    | inl same ↦
        let back : ids.eqb a b ≡ true = (ids.eqb_iff a b).1 (sym ((ids.eqb_iff b a).0 same)) in
        cc (back, h)
  ]

  pub join-NoDup : (id : ID) (q : List ID) → NoDup q → NoDup (join id q)
  unfolding exists
  join-NoDup id [] h = (refl, tt)
  join-NoDup id (x ∷ q) (absent, rest) = elim (Bool-cases (ids.eqb id x)) [
    | inl same ↦ rw same (absent, rest)
    | inr other ↦ rw other (Absent-join x id q absent (eqb_false id x other), join-NoDup id q rest)
  ]

  pub leave-NoDup : (id : ID) (q : List ID) → NoDup q → NoDup (leave id q)
  leave-NoDup id [] h = tt
  leave-NoDup id (x ∷ q) (absent, rest) = elim (Bool-cases (ids.eqb id x)) [
    | inl same ↦ rw same (leave-NoDup id q rest)
    | inr other ↦ rw other (Absent-leave x id q absent, leave-NoDup id q rest)
  ]
