-- ===== src/Bank/Threads.antt =====
-- bank.go under concurrent calls: goroutines that each make one call of Deposit, Transfer or
-- DepositAndCompare, one statement or one operation on a mutex at a time, in any order. A printed message
-- is no step.
pub mod Mutexes
pub mod Effects
pub mod Owners
pub mod Handover
pub mod Moves
pub mod Turns
pub mod Progress
pub mod Ends
pub mod Changes
pub mod Bookings
pub mod Refusals
pub mod Statements
pub mod Orders
pub mod Serial
pub mod Agreement
mod Tests
use cs_350_boston_u.Base.{
  ℕ, ◌<◌, ◌==◌, ◌≡◌, Bool, true, false, not, ◌&&◌, ◌||◌, Option, none, some, if◌then◌else◌, Outcome,
  returns, panics, blocks, ◌>>=◌,
}
use cs_350_boston_u.Base.Int.{ℤ, pos, ltb_ℤ, leb_ℤ, eqb_ℤ}
use cs_350_boston_u.Base.Word.{add_int, sub_int}
use cs_350_boston_u.Bank.{
  Account, Bank, has_account, lock_bank, unlock_bank, account_at, lock_account, unlock_account,
  set_balance,
}
use cs_350_boston_u.Bank.Locks.{Call, deposits, transfers, compares}

-- Where a goroutine stands, with the local variables that are live there.
pub data Pc : Type 0 where
  begins : Pc  -- before `bankLock.Lock()`
  in_bank : Pc  -- before the accounts are looked up and `bankLock` is unlocked
  wants_first : Pc  -- before the first account is locked
  wants_second : Pc  -- of `Transfer`, before the second account is locked
  entered : Pc  -- every account of the call is locked
  computed : ℤ → Pc  -- of `Deposit`, `newBalance` is computed
  credited : Pc  -- of `DepositAndCompare`, the amount is added
  approved : Pc  -- of `Transfer`, the test is passed
  debited : Pc  -- of `Transfer`, the sender has paid
  leaving : Option Bool → Pc  -- before the unlocks, with the result
  left_second : Option Bool → Pc  -- of `Transfer`, before the last unlock
  returned : Option Bool → Pc

abbrev pub is_transfer : Call → Bool
is_transfer (deposits id amount) = false
is_transfer (transfers sender receiver amount overdraw) = true
is_transfer (compares id amount threshold) = false

-- `firstAccount` and `secondAccount` of `Transfer`; the account of another call.
abbrev pub first_of : Call → ℤ
first_of (deposits id amount) = id
first_of (transfers sender receiver amount overdraw) =
    if ltb_ℤ sender receiver then sender else receiver
first_of (compares id amount threshold) = id

abbrev pub second_of : Call → ℤ
second_of (deposits id amount) = id
second_of (transfers sender receiver amount overdraw) =
    if ltb_ℤ sender receiver then receiver else sender
second_of (compares id amount threshold) = id

-- Is this the call that returns before it takes a lock?
abbrev pub is_idle : Call → Bool
is_idle (deposits id amount) = false
is_idle (transfers sender receiver amount overdraw) = eqb_ℤ sender receiver
is_idle (compares id amount threshold) = false

-- The test under the bank's mutex.
abbrev pub goes_on : Call → Bank → Bool
goes_on (deposits id amount) b = has_account id b
goes_on (transfers sender receiver amount overdraw) b =
    has_account sender b && has_account receiver b
goes_on (compares id amount threshold) b = has_account id b && ltb_ℤ (pos 0) amount

-- What a call returns when it does not go on; `Deposit` has no result.
abbrev pub refusal : Call → Option Bool
refusal (deposits id amount) = none
refusal (transfers sender receiver amount overdraw) = some false
refusal (compares id amount threshold) = some false

-- The statements between the locks and the unlocks.
unfoldable pub next_inside : Call → Pc → Bank → Outcome (Bank × Pc)
next_inside (deposits id amount) entered b = do
  a ← account_at id b
  returns (b, computed (add_int a.balance amount))
next_inside (deposits id amount) (computed new_balance) b = do
  b1 ← set_balance id new_balance b
  returns (b1, leaving none)
next_inside (compares id amount threshold) entered b = do
  a ← account_at id b
  b1 ← set_balance id (add_int a.balance amount) b
  returns (b1, credited)
next_inside (compares id amount threshold) credited b = do
  a ← account_at id b
  returns (b, leaving (some (leb_ℤ threshold a.balance)))
next_inside (transfers sender receiver amount overdraw) entered b = do
  s ← account_at sender b
  returns (b, if leb_ℤ amount s.balance || overdraw then approved else leaving (some false))
next_inside (transfers sender receiver amount overdraw) approved b = do
  s ← account_at sender b
  b1 ← set_balance sender (sub_int s.balance amount) b
  returns (b1, debited)
next_inside (transfers sender receiver amount overdraw) debited b = do
  r ← account_at receiver b
  b1 ← set_balance receiver (add_int r.balance amount) b
  returns (b1, leaving (some true))
next_inside c p b = panics

-- The next statement of a goroutine. It waits where a mutex is locked, and where it has returned.
unfoldable pub next : Call → Pc → Bank → Outcome (Bank × Pc)
unfolding next_inside
next c begins b =
    if is_idle c
    then returns (b, returned (refusal c))
    else (do b1 ← lock_bank b; returns (b1, in_bank))
next c in_bank b = do
  b1 ← unlock_bank b
  returns (b1, if goes_on c b then wants_first else returned (refusal c))
next c wants_first b = do
  b1 ← lock_account (first_of c) b
  returns (b1, if is_transfer c then wants_second else entered)
next c wants_second b = do b1 ← lock_account (second_of c) b; returns (b1, entered)
next c (leaving result) b = do
  b1 ← unlock_account (second_of c) b
  returns (b1, if is_transfer c then left_second result else returned result)
next c (left_second result) b = do b1 ← unlock_account (first_of c) b; returns (b1, returned result)
next c (returned result) b = blocks
next c p b = next_inside c p b

-- The bank and the goroutines, by number.
pub record System : Type 0 where
  pub bank : Bank
  pub pc : ℕ → Pc

abbrev pub moved_on : System → ℕ → Bank → Pc → System
moved_on s i b p = record { bank = b; pc = λ j. if i == j then p else s.pc j }

-- Goroutine `i` makes the call `call i`.
pub data Reach (n : ℕ) (call : ℕ → Call) (b : Bank) : System → Type 0 where
  start : Reach n call b (record { bank = b; pc = λ j. begins })
  step :
      (s : System) (i : ℕ) (b' : Bank) (p' : Pc)
      → Reach n call b s
      → i < n
      → next (call i) (s.pc i) s.bank ≡ returns (b', p')
      → Reach n call b (moved_on s i b' p')

-- Does the goroutine hold the account's mutex?
abbrev pub holds_first : Pc → Bool
holds_first begins = false
holds_first in_bank = false
holds_first wants_first = false
holds_first (returned result) = false
holds_first _ = true

abbrev pub holds_second : Pc → Bool
holds_second wants_second = false
holds_second (left_second result) = false
holds_second p = holds_first p

abbrev pub holds : Call → Pc → ℤ → Bool
holds c p k =
    (holds_first p && eqb_ℤ (first_of c) k)
    || (is_transfer c && (holds_second p && eqb_ℤ (second_of c) k))

abbrev pub is_in_bank : Pc → Bool
is_in_bank in_bank = true
is_in_bank _ = false
