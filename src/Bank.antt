-- ===== src/Bank.antt =====
-- ALL_CODE_350/starter-1/bank/bank.go: accounts with a mutex each, and a mutex on the map of accounts.
-- Calls run one after another here; a `Lock` of a mutex that an earlier call has left locked waits for
-- ever. Accounts are never removed, so an account's pointer is its number. The printed messages and the
-- empty notifications are left out.
pub mod Transfers
pub mod Locks
pub mod Ledger
pub mod Books
pub mod Threads
mod Tests
use cs_350_boston_u.Base.{
  Bool, true, false, ◌&&◌, ◌||◌, not, Option, none, some, if◌then◌else◌, Outcome, returns, panics,
  blocks, ◌>>=◌,
}
use cs_350_boston_u.Base.Int.{ℤ, pos, ltb_ℤ, leb_ℤ, eqb_ℤ}
use cs_350_boston_u.Base.Word.{add_int, sub_int}

pub record Account : Type 0 where
  pub balance : ℤ
  pub locked : Bool

pub record Bank : Type 0 where
  pub bank_locked : Bool
  pub accounts : ℤ → Option Account

unfoldable pub bank_init : Bank
bank_init = record { bank_locked = false; accounts = λ _. none }

-- `accounts[id] = a`
abbrev pub put : ℤ → Account → Bank → Bank
put id a b = record b { accounts = λ k. if eqb_ℤ id k then some a else b.accounts k }

-- The mutex of the bank. Unlocking an unlocked mutex ends the program.
abbrev pub lock_bank : Bank → Outcome Bank
lock_bank b = if b.bank_locked then blocks else returns (record b { bank_locked = true })

abbrev pub unlock_bank : Bank → Outcome Bank
unlock_bank b = if b.bank_locked then returns (record b { bank_locked = false }) else panics

-- The account behind a pointer; a missing account is a nil pointer.
abbrev pub account_at : ℤ → Bank → Outcome Account
account_at id b = elim (b.accounts id) [ none ↦ panics | some a ↦ returns a ]

abbrev pub lock_account : ℤ → Bank → Outcome Bank
lock_account id b = do
  a ← account_at id b
  if a.locked then blocks else returns (put id (record a { locked = true }) b)

abbrev pub unlock_account : ℤ → Bank → Outcome Bank
unlock_account id b = do
  a ← account_at id b
  if a.locked then returns (put id (record a { locked = false }) b) else panics

abbrev pub set_balance : ℤ → ℤ → Bank → Outcome Bank
set_balance id amount b = do a ← account_at id b; returns (put id (record a { balance = amount }) b)

abbrev pub has_account : ℤ → Bank → Bool
has_account id b = elim (b.accounts id) [ none ↦ false | some a ↦ true ]

unfoldable pub create_account : ℤ → Bank → Outcome Bank
create_account id b = do
  b1 ← lock_bank b
  if has_account id b1
      then (do b2 ← unlock_bank b1; panics)
      else unlock_bank (put id (record { balance = pos 0; locked = false }) b1)

unfoldable pub deposit : ℤ → ℤ → Bank → Outcome Bank
deposit id amount b = do
  b1 ← lock_bank b
  b2 ← unlock_bank b1
  if has_account id b1
      then (do
        b3 ← lock_account id b2
        a ← account_at id b3
        b4 ← set_balance id (add_int a.balance amount) b3
        unlock_account id b4)
      else returns b2

-- `Withdraw` once the account is locked.
unfoldable pub withdraw_locked : ℤ → ℤ → Account → Bank → Outcome (Bank × Bool)
withdraw_locked id amount a b =
    if leb_ℤ amount a.balance
    then (if ltb_ℤ a.balance (pos 0) then returns (b, false) else (do
      b1 ← set_balance id (sub_int a.balance amount) b
      b2 ← unlock_account id b1
      returns (b2, true)))
    else (do b1 ← unlock_account id b; returns (b1, false))

unfoldable pub withdraw : ℤ → ℤ → Bank → Outcome (Bank × Bool)
unfolding withdraw_locked
withdraw id amount b = do
  b1 ← lock_bank b
  b2 ← unlock_bank b1
  if has_account id b1
      then (do b3 ← lock_account id b2; a ← account_at id b3; withdraw_locked id amount a b3)
      else (do b3 ← unlock_account id b2; returns (b3, false))

-- `Transfer` once both accounts are locked.
unfoldable pub transfer_locked : ℤ → ℤ → ℤ → Bool → Bank → Outcome (Bank × Bool)
transfer_locked sender receiver amount allow_overdraw b = do
  s ← account_at sender b
  if leb_ℤ amount s.balance || allow_overdraw
      then (do
        b1 ← set_balance sender (sub_int s.balance amount) b
        r ← account_at receiver b1
        b2 ← set_balance receiver (add_int r.balance amount) b1
        returns (b2, true))
      else returns (b, false)

unfoldable pub transfer : ℤ → ℤ → ℤ → Bool → Bank → Outcome (Bank × Bool)
unfolding transfer_locked
transfer sender receiver amount allow_overdraw b =
    if eqb_ℤ sender receiver then returns (b, false) else (do
      b1 ← lock_bank b
      b2 ← unlock_bank b1
      if has_account sender b1 && has_account receiver b1
          then (do
            let first = if ltb_ℤ sender receiver then sender else receiver
            let second = if ltb_ℤ sender receiver then receiver else sender
            b3 ← lock_account first b2
            b4 ← lock_account second b3
            (b5, success) ← transfer_locked sender receiver amount allow_overdraw b4
            b6 ← unlock_account second b5
            b7 ← unlock_account first b6
            returns (b7, success))
          else returns (b2, false))

unfoldable pub deposit_and_compare : ℤ → ℤ → ℤ → Bank → Outcome (Bank × Bool)
deposit_and_compare id amount threshold b = do
  b1 ← lock_bank b
  b2 ← unlock_bank b1
  if has_account id b1 && ltb_ℤ (pos 0) amount
      then (do
        b3 ← lock_account id b2
        a ← account_at id b3
        let sum = add_int a.balance amount
        b4 ← set_balance id sum b3
        b5 ← unlock_account id b4
        returns (b5, leb_ℤ threshold sum))
      else returns (b2, false)

unfoldable pub get_balance : ℤ → Bank → Outcome (Bank × ℤ)
get_balance id b = do
  b1 ← lock_bank b
  b2 ← unlock_bank b1
  if has_account id b1
      then (do
        b3 ← lock_account id b2
        a ← account_at id b3
        b4 ← unlock_account id b3
        returns (b4, a.balance))
      else panics
