-- ===== src/Bank/Threads/Orders.antt =====
-- bank.go under concurrent calls: an order of calls, what it leads to, and a state that agrees with it.
use cs_350_boston_u.Base.{
  ℕ, ◌<◌, ◌==◌, ◌≡◌, refl, ◌∙◌, Bool, true, false, Option, none, some, if◌then◌else◌, List, [], ◌∷◌,
  arith,
}
use cs_350_boston_u.Base.Int.{ℤ}
use cs_350_boston_u.Bank.{Bank, has_account}
use cs_350_boston_u.Bank.Locks.{Call, deposits, transfers, compares}
use cs_350_boston_u.Bank.Ledger.{Ledger, ledger_of, is_entered, book}
use cs_350_boston_u.Bank.Threads.{Pc, computed, credited, approved, debited, holds, System}
use cs_350_boston_u.Bank.Threads.Changes.{outcome, is_dirty, Local}

pub i_is_i : (i : ℕ) → (i == i) ≡ true
i_is_i i = ground arith

-- What is in between belongs to an account that the goroutine holds.
pub not_dirty : (c : Call) (p : Pc) (k : ℤ) → holds c p k ≡ false → is_dirty c p k ≡ false
not_dirty (compares id amount threshold) credited k free = ground (arith, free)
not_dirty (transfers sender receiver amount overdraw) debited k free = ground (arith, free)
not_dirty c p k free = refl

pub Local-same :
    (c : Call) (p : Pc) (v v' : Ledger) (b b' : Bank)
    → ((k : ℤ) → holds c p k ≡ true → (ledger_of b' k ≡ ledger_of b k) × (v' k ≡ v k))
    → Local c p v b
    → Local c p v' b'
Local-same (deposits id amount) (computed new_balance) v v' b b' same (x, there, new) =
    (x, (same id (ground arith)).1 ∙ there, new)
Local-same (compares id amount threshold) credited v v' b b' same (x, there, has) =
    let (e, e') = same id (ground arith) in (x, e' ∙ there, e ∙ has)
Local-same (transfers sender receiver amount overdraw) approved v v' b b' same (x, there, may) =
    (x, (same sender (ground arith)).1 ∙ there, may)
Local-same (transfers sender receiver amount overdraw) debited v v' b b' same
      (x, there, may, paid) =
    let (e, e') = same sender (ground arith) in (x, e' ∙ there, may, e ∙ paid)
Local-same c p v v' b b' same here = tt

module _ (call : ℕ → Call) (v : Ledger) where
  -- The ledger after the calls of these goroutines, the latest first.
  unfoldable pub ledger_after : List ℕ → Ledger
  ledger_after [] = v
  ledger_after (i ∷ order) = (book (call i) (ledger_after order)).0

  -- The result that the goroutine's call has there, if it is among them.
  unfoldable pub result_in : List ℕ → ℕ → Option (Option Bool)
  unfolding ledger_after
  result_in [] i = none
  result_in (j ∷ order) i =
      if j == i then some ((book (call j) (ledger_after order)).1) else result_in order i

  -- Every goroutine stands there at most once.
  abbrev pub Distinct : ℕ → List ℕ → Type 0
  Distinct n [] = Unit {0}
  Distinct n (i ∷ order) = (i < n) × (result_in order i ≡ none) × Distinct n order

  pub result_in-cons :
      (i : ℕ) (order : List ℕ)
      → result_in (i ∷ order) i ≡ some ((book (call i) (ledger_after order)).1)
  unfolding result_in
  result_in-cons i order = rw (i_is_i i) refl

  pub result_in-other :
      (i j : ℕ) (order : List ℕ) → (i == j) ≡ false → result_in (i ∷ order) j ≡ result_in order j
  unfolding result_in
  result_in-other i j order other = rw other refl

pub record Serial (n : ℕ) (call : ℕ → Call) (v : Ledger) (s : System) : Type 0 where
  pub order : List ℕ
  pub distinct : Distinct call v n order
  pub results : (i : ℕ) → i < n → outcome (s.pc i) ≡ result_in call v order i
  pub locals : (i : ℕ) → i < n → Local (call i) (s.pc i) (ledger_after call v order) s.bank
  pub agrees :
      (k : ℤ)
      → ((i : ℕ) → i < n → is_dirty (call i) (s.pc i) k ≡ false)
      → ledger_of s.bank k ≡ ledger_after call v order k
  pub entries : (k : ℤ) → is_entered (ledger_after call v order k) ≡ has_account k s.bank
