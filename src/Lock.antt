-- ===== src/Lock.antt =====
-- ALL_CODE_350/starter-1/raft-lock/lockStore.go: for each key, the clients that hold or wait for its
-- lock, as a map of slices. A map is a function; a key that is missing reads as an empty slice.
pub mod Queues
pub mod Requests
pub mod Server
pub mod Clerk
mod Tests
use cs_350_boston_u.Base.{
  ◌≡◌, ◌↔◌, Bool, true, false, not, Option, none, some, List, [], ◌∷◌, ◌++◌, if◌then◌else◌, Outcome,
  returns, panics,
}
use cs_350_boston_u.Base.Comparable.{Comparable}

abbrev pub MultiMap : Type 0 → Type 0 → Type 0
MultiMap K V = K → Option (List V)

module _ {V : Type 0} where
  -- `exists`
  unfoldable pub exists : List V → (V → Bool) → Bool
  exists [] predicate = false
  exists (elem ∷ array) predicate =
      let rest = exists array predicate in if predicate elem then true else rest

  -- The function `filter`.
  unfoldable pub filter : List V → (V → Bool) → List V
  filter [] keep_when_true = []
  filter (v ∷ array) keep_when_true =
      let rest = filter array keep_when_true in if keep_when_true v then v ∷ rest else rest

module _ {V : Type 0} where
  -- The entry to put back, or none for `delete`.
  abbrev pub kept : Option (List V) → Option (List V)
  kept (some []) = none
  kept other = other

module _ {K V : Type 0} ⦃keys : Comparable K⦄ where
  -- `m[key]`
  abbrev pub at : MultiMap K V → K → List V
  at m key = elim (m key) [ none ↦ [] | some vs ↦ vs ]

  abbrev pub assign : MultiMap K V → K → Option (List V) → MultiMap K V
  assign m key vs k = if keys.eqb key k then vs else m k

  unfoldable pub put : MultiMap K V → K → V → MultiMap K V
  put m key val = assign m key (some (at m key ++ val ∷ []))

  unfoldable pub clean_empty : MultiMap K V → K → MultiMap K V
  clean_empty m key = assign m key (kept (m key))

  -- The method `filter`.
  unfoldable pub filter_at : MultiMap K V → K → (V → Bool) → MultiMap K V
  unfolding clean_empty
  filter_at m key keep_when_true =
      clean_empty (assign m key (some (filter (at m key) keep_when_true))) key

module _ {K ID : Type 0} ⦃keys : Comparable K⦄ ⦃ids : Comparable ID⦄ where
  -- `getLockOwner`, with the zero value of an ID.
  unfoldable pub get_lock_owner : ID → MultiMap K ID → K → Outcome (ID × Bool)
  get_lock_owner doesnt_exist store key = elim (store key) [
    | some (id ∷ _) ↦ returns (id, true)
    | some [] ↦ panics
    | none ↦ returns (doesnt_exist, false)
  ]

  unfoldable pub lock : MultiMap K ID → K → ID → MultiMap K ID
  unfolding exists put
  lock store key id =
      if not (exists (at store key) (λ elem. ids.eqb id elem)) then put store key id else store

  unfoldable pub unlock : MultiMap K ID → K → ID → MultiMap K ID
  unfolding filter_at filter
  unlock store key id = filter_at store key (λ elem. not (ids.eqb id elem))
