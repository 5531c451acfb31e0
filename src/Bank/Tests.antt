-- ===== src/Bank/Tests.antt =====
-- Witnesses on a bank of two accounts, the second in debt.
use cs_350_boston_u.Base.{
  ◌≡◌, refl, true, false, none, List, [], ◌∷◌, returns, blocks, Returns, arith, if◌then◌else◌,
}
use cs_350_boston_u.Base.Int.{ℤ, pos, negsuc, eqb_ℤ}
use cs_350_boston_u.Base.Word.{add_int}
use cs_350_boston_u.Bank.{Bank, deposit, withdraw, transfer, get_balance}
use cs_350_boston_u.Bank.Transfers.{open_account, balance_of, transfer_conserves}
use cs_350_boston_u.Bank.Locks.{AllFree, Call, withdraw_keeps_lock}

abbrev two_accounts : Bank
two_accounts = record {
  bank_locked = false;
  accounts = λ k.
      if eqb_ℤ (pos 1) k
      then open_account (pos 50)
      else if eqb_ℤ (pos 2) k
      then open_account (negsuc 9)
      else none;
}

two_accounts-AllFree : AllFree two_accounts
two_accounts-AllFree = (refl, λ k a has. ground (arith, has))

transfer_conserves_example :
    Returns
      (λ o.
        (o.0.bank_locked ≡ false)
        × (o.0.accounts (pos 1) ≡ open_account (balance_of (pos 1) o.0))
        × (o.0.accounts (pos 2) ≡ open_account (balance_of (pos 2) o.0))
        × (add_int (balance_of (pos 1) o.0) (balance_of (pos 2) o.0) ≡ add_int (pos 50) (negsuc 9))
        × (o.0.accounts (pos 3) ≡ none))
      (transfer (pos 1) (pos 2) (pos 80) true two_accounts)
transfer_conserves_example =
    transfer_conserves (pos 1) (pos 2) (pos 80) (pos 50) (negsuc 9) true two_accounts (pos 3) refl
      refl refl refl refl refl

abbrev some_calls : List Call
some_calls =
    Call.deposits (pos 1) (pos 5)
    ∷ Call.transfers (pos 2) (pos 1) (pos 7) true
    ∷ Call.compares (pos 3) (pos 1) (pos 1)
    ∷ []

withdraw_keeps_lock_example :
    (b' : Bank) × (withdraw (pos 2) (negsuc 19) two_accounts ≡ returns (b', false))
    × ((more : ℤ) → deposit (pos 2) more b' ≡ blocks)
    × (get_balance (pos 2) b' ≡ blocks)
withdraw_keeps_lock_example =
    withdraw_keeps_lock (pos 2) (negsuc 19) (negsuc 9) two_accounts refl refl (omega arith)
      (omega arith)
