-- ===== src/Bank/Transfers.antt =====
-- bank.go, `Transfer`: the money moves, and none is made.
use cs_350_boston_u.Base.{
  ◌≡◌, ◌||◌, Bool, true, false, Option, some, none, arith, Returns, if◌then◌else◌,
}
use cs_350_boston_u.Base.Int.{ℤ, ◌+ℤ◌, pos, leb_ℤ, eqb_ℤ}
use cs_350_boston_u.Base.Word.{
  add_int, sub_int, wrap-IsInt, word_add, word_lt, word_sub, IsInt-word, IsInt,
}
use cs_350_boston_u.Bank.{Account, Bank, transfer, transfer_locked}

add_int-IsInt : (a b : ℤ) → IsInt (add_int a b)
unfolding add_int
add_int-IsInt a b = wrap-IsInt (a +ℤ b)

-- What leaves one balance and enters another keeps their sum, also where the sums wrap around.
pub move_keeps_sum : (s r amount : ℤ) → add_int (sub_int s amount) (add_int r amount) ≡ add_int s r
move_keeps_sum s r amount = IsInt-word _ _ (add_int-IsInt _ _) (add_int-IsInt _ _) (
    omega (
      arith,
      word_add (sub_int s amount) (add_int r amount),
      word_sub s amount,
      word_add r amount,
      word_add s r,
      word_lt s,
      word_lt r,
      word_lt amount,
    ))

-- An account with a balance, its lock free.
abbrev pub open_account : ℤ → Option Account
open_account balance = some (record { balance = balance; locked = false })

-- The accounts after a transfer between two of them.
abbrev pub moved : ℤ → ℤ → ℤ → ℤ → ℤ → Bank → ℤ → Option Account
moved sender receiver amount s r b k =
    if eqb_ℤ sender k
    then open_account (sub_int s amount)
    else if eqb_ℤ receiver k
    then open_account (add_int r amount)
    else b.accounts k

-- Between two different accounts, with neither their locks nor the bank's held, a transfer that the
-- sender's balance covers, or that may overdraw it, returns true: the amount is off the one balance
-- and on the other, as sums of `int`, and none of these locks is held. Every other account is as it
-- was.
pub transfer_moves :
    (sender receiver amount s r : ℤ) (overdraw : Bool) (b : Bank) (k : ℤ)
    → b.bank_locked ≡ false
    → eqb_ℤ sender receiver ≡ false
    → b.accounts sender ≡ open_account s
    → b.accounts receiver ≡ open_account r
    → (leb_ℤ amount s || overdraw) ≡ true
    → Returns
        (λ o.
          (o.1 ≡ true)
          × (o.0.bank_locked ≡ false)
          × (o.0.accounts k ≡ moved sender receiver amount s r b k))
        (transfer sender receiver amount overdraw b)
unfolding transfer transfer_locked
transfer_moves sender receiver amount s r overdraw b k free differ has_s has_r may =
    ground (arith, has_s, has_r)

-- A transfer that the balance does not cover and that may not overdraw it changes nothing.
pub transfer_refuses :
    (sender receiver amount s r : ℤ) (b : Bank) (k : ℤ)
    → b.bank_locked ≡ false
    → eqb_ℤ sender receiver ≡ false
    → b.accounts sender ≡ open_account s
    → b.accounts receiver ≡ open_account r
    → leb_ℤ amount s ≡ false
    → Returns
        (λ o. (o.1 ≡ false) × (o.0.bank_locked ≡ false) × (o.0.accounts k ≡ b.accounts k))
        (transfer sender receiver amount false b)
unfolding transfer transfer_locked
transfer_refuses sender receiver amount s r b k free differ has_s has_r short =
    ground (arith, has_s, has_r)

-- The balance of an account, 0 if it does not exist.
abbrev pub balance_of : ℤ → Bank → ℤ
balance_of id b = elim (b.accounts id) [ none ↦ pos 0 | some a ↦ a.balance ]

-- Between two different accounts, with neither their locks nor the bank's held, `Transfer` returns
-- with none of these locks held. The two balances have the sum that they had, also where it wraps
-- around, and no other account is changed.
pub transfer_conserves :
    (sender receiver amount s r : ℤ) (overdraw : Bool) (b : Bank) (k : ℤ)
    → b.bank_locked ≡ false
    → eqb_ℤ sender receiver ≡ false
    → b.accounts sender ≡ open_account s
    → b.accounts receiver ≡ open_account r
    → eqb_ℤ sender k ≡ false
    → eqb_ℤ receiver k ≡ false
    → Returns
        (λ o.
          (o.0.bank_locked ≡ false)
          × (o.0.accounts sender ≡ open_account (balance_of sender o.0))
          × (o.0.accounts receiver ≡ open_account (balance_of receiver o.0))
          × (add_int (balance_of sender o.0) (balance_of receiver o.0) ≡ add_int s r)
          × (o.0.accounts k ≡ b.accounts k))
        (transfer sender receiver amount overdraw b)
unfolding transfer transfer_locked
transfer_conserves sender receiver amount s r overdraw b k free differ has_s has_r not_s not_r =
    ground (arith, has_s, has_r, move_keeps_sum s r amount)
