-- ===== src/Bank/Threads/Changes.antt =====
-- bank.go under concurrent calls: what a statement does to the balances, next to a ledger in which the
-- calls that have their results are booked.
use cs_350_boston_u.Base.{
  ◌≡◌, refl, sym, subst, ap, ◌∙◌, Bool, true, false, ◌||◌, Option, none, some, Bool-cases, inl, inr,
  arith,
}
use cs_350_boston_u.Base.Int.{ℤ, eqb_ℤ, eqb→eq, leb_ℤ}
use cs_350_boston_u.Base.Word.{add_int, sub_int}
use cs_350_boston_u.Bank.{Account, Bank, put}
use cs_350_boston_u.Bank.Locks.{Call, deposits, transfers, compares}
use cs_350_boston_u.Bank.Ledger.{Ledger, ledger_of, enter, is_entered, book}
use cs_350_boston_u.Bank.Threads.{
  Pc, computed, credited, approved, debited, leaving, left_second, returned, holds,
}

-- The result of the call, once it is known; `Deposit` has none.
abbrev pub outcome : Pc → Option (Option Bool)
outcome (leaving result) = some result
outcome (left_second result) = some result
outcome (returned result) = some result
outcome p = none

-- Is the balance in the bank between two statements of this call?
abbrev pub is_dirty : Call → Pc → ℤ → Bool
is_dirty (compares id amount threshold) credited k = eqb_ℤ id k
is_dirty (transfers sender receiver amount overdraw) debited k = eqb_ℤ sender k
is_dirty c p k = false

-- What the local variables and the accounts of a goroutine have to do with the ledger.
abbrev pub Local : Call → Pc → Ledger → Bank → Type 0
Local (deposits id amount) (computed new_balance) v b =
    (x : ℤ) × (v id ≡ some x) × (new_balance ≡ add_int x amount)
Local (compares id amount threshold) credited v b =
    (x : ℤ) × (v id ≡ some x) × (ledger_of b id ≡ some (add_int x amount))
Local (transfers sender receiver amount overdraw) approved v b =
    (x : ℤ) × (v sender ≡ some x) × ((leb_ℤ amount x || overdraw) ≡ true)
Local (transfers sender receiver amount overdraw) debited v b =
    (x : ℤ) × (v sender ≡ some x)
    × ((leb_ℤ amount x || overdraw) ≡ true)
    × (ledger_of b sender ≡ some (sub_int x amount))
Local c p v b = Unit {0}

-- After the statement, with the ledger `v'`: only accounts that the goroutine held have changed, those
-- that it holds agree with the ledger but for those in between, and no account is new.
pub record Rest (c : Call) (p : Pc) (b : Bank) (v : Ledger) (p' : Pc) (b' : Bank) (v' : Ledger)
    : Type 0 where
  pub others : (k : ℤ) → holds c p k ≡ false → (ledger_of b' k ≡ ledger_of b k) × (v' k ≡ v k)
  pub agrees : (k : ℤ) → holds c p k ≡ true → is_dirty c p' k ≡ false → ledger_of b' k ≡ v' k
  pub local : Local c p' v' b'
  pub entries : (k : ℤ) → is_entered (v' k) ≡ is_entered (v k)

-- A statement books nothing, or the call: it has its result then, which is the booked one.
pub data Change (c : Call) (p : Pc) (b : Bank) (v : Ledger) (p' : Pc) (b' : Bank) : Type 0 where
  quiet : outcome p' ≡ outcome p → Rest c p b v p' b' v → Change c p b v p' b'
  books :
      outcome p ≡ none
      → outcome p' ≡ some ((book c v).1)
      → Rest c p b v p' b' ((book c v).0)
      → Change c p b v p' b'

abbrev pub Changes : Call → Pc → Bank → Ledger → Bank × Pc → Type 0
Changes c p b v (b', p') = Change c p b v p' b'

-- What the goroutine holds agrees with the ledger, but for what is in between.
abbrev pub Agrees : Call → Pc → Bank → Ledger → Type 0
Agrees c p b v = (k : ℤ) → holds c p k ≡ true → is_dirty c p k ≡ false → ledger_of b k ≡ v k

-- A statement on a mutex.
pub quiet-Rest :
    (c : Call) (p : Pc) (b : Bank) (v : Ledger) (p' : Pc) (b' : Bank)
    → Agrees c p b v
    → ((k : ℤ) → ledger_of b' k ≡ ledger_of b k)
    → ((k : ℤ) → is_dirty c p k ≡ false)
    → Local c p' v b'
    → Rest c p b v p' b' v
quiet-Rest c p b v p' b' agree same clean here = record {
  others = λ k h. (same k, refl);
  agrees = λ k h d. same k ∙ agree k h (clean k);
  local = here;
  entries = λ k. refl;
}

pub ledger_of-locked :
    (id : ℤ) (a : Account) (locked : Bool) (b : Bank) (k : ℤ)
    → b.accounts id ≡ some a
    → ledger_of (put id (record a { locked = locked }) b) k ≡ ledger_of b k
ledger_of-locked id a locked b k has = elim (Bool-cases (eqb_ℤ id k)) [
  | inl at ↦ ground (arith, at, has, ap b.accounts (eqb→eq id k at))
  | inr off ↦ ground (arith, off)
]

pub ledger_of-balance :
    (id : ℤ) (a : Account) (balance : ℤ) (b : Bank) (k : ℤ)
    → ledger_of (put id (record a { balance = balance }) b) k ≡ enter id balance (ledger_of b) k
ledger_of-balance id a balance b k = elim (Bool-cases (eqb_ℤ id k)) [
  | inl at ↦ ground (arith, at)
  | inr off ↦ ground (arith, off)
]

pub booked :
    (c : Call) (p : Pc) (b : Bank) (v : Ledger) (p' : Pc) (b' : Bank) (v' : Ledger)
    (result : Option Bool)
    → outcome p ≡ none
    → outcome p' ≡ some result
    → book c v ≡ (v', result)
    → Rest c p b v p' b' v'
    → Change c p b v p' b'
booked c p b v p' b' v' result before after e rest =
    books before (after ∙ ap some (sym (ap (λ r. r.1) e)))
      (subst (Rest c p b v p' b') (sym (ap (λ r. r.0) e)) rest)
