-- ===== src/Bank/Ledger.antt =====
-- bank.go without mutexes: the balances, and what each call does to them at once.
use cs_350_boston_u.Base.{Bool, true, false, ◌||◌, Option, none, some, if◌then◌else◌}
use cs_350_boston_u.Base.Int.{ℤ, pos, ltb_ℤ, leb_ℤ, eqb_ℤ}
use cs_350_boston_u.Base.Word.{add_int, sub_int}
use cs_350_boston_u.Bank.{Account, Bank}
use cs_350_boston_u.Bank.Locks.{Call, deposits, transfers, compares}

-- The balance of each account that exists.
abbrev pub Ledger : Type 0
Ledger = ℤ → Option ℤ

abbrev pub balance_in : Option Account → Option ℤ
balance_in none = none
balance_in (some a) = some a.balance

abbrev pub ledger_of : Bank → Ledger
ledger_of b k = balance_in (b.accounts k)

abbrev pub enter : ℤ → ℤ → Ledger → Ledger
enter id balance v k = if eqb_ℤ id k then some balance else v k

abbrev pub is_entered : Option ℤ → Bool
is_entered none = false
is_entered (some x) = true

-- What a call does, and what it returns; `Deposit` returns nothing.
unfoldable pub book : Call → Ledger → Ledger × Option Bool
book (deposits id amount) v = elim (v id) [
  | none ↦ (v, none)
  | some x ↦ (enter id (add_int x amount) v, none)
]
book (compares id amount threshold) v = elim (v id) [
  | none ↦ (v, some false)
  | some x ↦
      if ltb_ℤ (pos 0) amount
      then (enter id (add_int x amount) v, some (leb_ℤ threshold (add_int x amount)))
      else (v, some false)
]
book (transfers sender receiver amount overdraw) v =
    if eqb_ℤ sender receiver then (v, some false) else elim (v sender) [
      | none ↦ (v, some false)
      | some x ↦ elim (v receiver) [
        | none ↦ (v, some false)
        | some y ↦
            if leb_ℤ amount x || overdraw
            then (enter receiver (add_int y amount) (enter sender (sub_int x amount) v), some true)
            else (v, some false)
      ]
    ]
