-- ===== src/Bank/Locks.antt =====
-- bank.go: which calls leave a lock held.
use cs_350_boston_u.Base.{
  ◌≡◌, refl, Bool, true, false, some, none, List, [], ◌∷◌, Outcome, returns, panics, blocks, arith,
  Returns, Returns-map, ◌>>=◌, Bool-cases, if◌then◌else◌, Option-cases, inl, inr,
}
use cs_350_boston_u.Base.Int.{ℤ, pos, leb_ℤ, eqb_ℤ, ◌≤ℤ◌, ◌<ℤ◌}
use cs_350_boston_u.Bank.Transfers.{open_account, transfer_moves, transfer_refuses}
use cs_350_boston_u.Bank.{
  Account, Bank, deposit, withdraw, withdraw_locked, transfer, deposit_and_compare, get_balance,
}

-- Nobody holds a lock.
abbrev pub AllFree : Bank → Type 0
AllFree b =
    (b.bank_locked ≡ false) × ((k : ℤ) (a : Account) → b.accounts k ≡ some a → a.locked ≡ false)

-- The lock of one account is free, and that of the bank.
abbrev FreeAt : ℤ → Account → Bank → Type 0
FreeAt k a b = (b.bank_locked ≡ false) × (b.accounts k ≡ some a → a.locked ≡ false)

-- An account without a debt.
abbrev NoDebt : ℤ → Bank → Type 0
NoDebt id b = (a : Account) × (b.accounts id ≡ some a) × (pos 0 ≤ℤ a.balance)

deposit_free :
    (id amount : ℤ) (b : Bank) (k : ℤ) (a : Account)
    → AllFree b
    → Returns (λ o. FreeAt k a o) (deposit id amount b)
unfolding deposit
deposit_free id amount b k a free = elim (Option-cases (b.accounts id)) [
  | inl missing ↦ ground (arith, missing, free.1 k a)
  | inr (own, has) ↦ ground (arith, has, free.1 k a, free.1 id own has)
]

withdraw_free :
    (id amount : ℤ) (b : Bank) (k : ℤ) (a : Account)
    → AllFree b
    → NoDebt id b
    → Returns (λ o. FreeAt k a o.0) (withdraw id amount b)
unfolding withdraw withdraw_locked
withdraw_free id amount b k a free (own, has, no_debt) =
    ground (arith, free.1 k a, free.1 id own has)

compare_free :
    (id amount threshold : ℤ) (b : Bank) (k : ℤ) (a : Account)
    → AllFree b
    → Returns (λ o. FreeAt k a o.0) (deposit_and_compare id amount threshold b)
unfolding deposit_and_compare
compare_free id amount threshold b k a free = elim (Option-cases (b.accounts id)) [
  | inl missing ↦ ground (arith, missing, free.1 k a)
  | inr (own, has) ↦ ground (arith, has, free.1 k a, free.1 id own has)
]

transfer_open_free :
    (sender receiver amount s r : ℤ) (overdraw : Bool) (b : Bank) (k : ℤ) (a : Account)
    → FreeAt k a b
    → eqb_ℤ sender receiver ≡ false
    → b.accounts sender ≡ open_account s
    → b.accounts receiver ≡ open_account r
    → Returns (λ o. FreeAt k a o.0) (transfer sender receiver amount overdraw b)
transfer_open_free sender receiver amount s r true b k a free differ has_s has_r =
    Returns-map (transfer sender receiver amount true b) (λ o done. ground (arith, done))
      (transfer_moves sender receiver amount s r true b k free.0 differ has_s has_r (ground arith))
transfer_open_free sender receiver amount s r false b k a free differ has_s has_r =
    elim (Bool-cases (leb_ℤ amount s)) [
      | inl enough ↦
          Returns-map (transfer sender receiver amount false b) (λ o done. ground (arith, done))
            (transfer_moves sender receiver amount s r false b k free.0 differ has_s has_r
              (ground arith))
      | inr short ↦
          Returns-map (transfer sender receiver amount false b) (λ o done. ground (arith, done))
            (transfer_refuses sender receiver amount s r b k free.0 differ has_s has_r short)
    ]

-- An account that nobody holds is open at its balance.
is_open :
    (b : Bank) (id : ℤ) (a : Account)
    → AllFree b
    → b.accounts id ≡ some a
    → b.accounts id ≡ open_account a.balance
is_open b id a free has = ground (arith, free.1 id a has, has)

transfer_free :
    (sender receiver amount : ℤ) (overdraw : Bool) (b : Bank) (k : ℤ) (a : Account)
    → AllFree b
    → Returns (λ o. FreeAt k a o.0) (transfer sender receiver amount overdraw b)
unfolding transfer
transfer_free sender receiver amount overdraw b k a free =
    elim (Bool-cases (eqb_ℤ sender receiver)) [
      | inl same ↦ ground (arith, free.1 k a)
      | inr differ ↦ elim (Option-cases (b.accounts sender)) [
        | inl missing ↦ ground (arith, missing, free.1 k a)
        | inr (own, has) ↦ elim (Option-cases (b.accounts receiver)) [
          | inl missing ↦ ground (arith, has, missing, free.1 k a)
          | inr (other, there) ↦
              transfer_open_free sender receiver amount own.balance other.balance overdraw b k a
                (free.0, free.1 k a) differ (is_open b sender own free has)
                (is_open b receiver other free there)
        ]
      ]
    ]

-- The calls that a client makes, `Withdraw` and `GetBalance` aside.
pub data Call : Type 0 where
  deposits : ℤ → ℤ → Call
  transfers : ℤ → ℤ → ℤ → Bool → Call
  compares : ℤ → ℤ → ℤ → Call

abbrev pub run_call : Call → Bank → Outcome Bank
run_call (deposits id amount) b = deposit id amount b
run_call (transfers sender receiver amount overdraw) b = do
  (b', success) ← transfer sender receiver amount overdraw b
  returns b'
run_call (compares id amount threshold) b = do
  (b', above) ← deposit_and_compare id amount threshold b
  returns b'

abbrev pub run_calls : List Call → Bank → Outcome Bank
run_calls [] b = returns b
run_calls (c ∷ cs) b = do b' ← run_call c b; run_calls cs b'

Returns-bank :
    (o : Outcome (Bank × Bool)) (k : ℤ) (a : Account)
    → Returns (λ r. FreeAt k a r.0) o
    → Returns (λ r. FreeAt k a r) (do (b', _) ← o; returns b')
Returns-bank (returns r) k a h = h
Returns-bank panics k a h = elim h [ ]
Returns-bank blocks k a h = elim h [ ]

run_call-FreeAt :
    (c : Call) (b : Bank) (k : ℤ) (a : Account)
    → AllFree b
    → Returns (λ o. FreeAt k a o) (run_call c b)
run_call-FreeAt (deposits id amount) b k a free = deposit_free id amount b k a free
run_call-FreeAt (transfers s r amount overdraw) b k a free =
    Returns-bank (transfer s r amount overdraw b) k a (transfer_free s r amount overdraw b k a free)
run_call-FreeAt (compares id amount threshold) b k a free =
    Returns-bank (deposit_and_compare id amount threshold b) k a
      (compare_free id amount threshold b k a free)

abbrev any : Account
any = record { balance = pos 0; locked = false }

all_free :
    {R : Type 0} (bank : R → Bank) (o : Outcome R)
    → ((k : ℤ) (a : Account) → Returns (λ r. FreeAt k a (bank r)) o)
    → (r : R) × (o ≡ returns r) × AllFree (bank r)
all_free bank (returns r) h = (r, refl, ((h (pos 0) any).0, λ k a. (h k a).1))
all_free bank panics h = absurd (h (pos 0) any)
all_free bank blocks h = absurd (h (pos 0) any)

-- From a bank with no lock held, any sequence of deposits, transfers and deposits with a comparison
-- returns, whatever the accounts and amounts, and leaves no lock held.
run_calls-AllFree :
    (cs : List Call) (b : Bank)
    → AllFree b
    → (b' : Bank) × (run_calls cs b ≡ returns b') × AllFree b'
run_calls-AllFree [] b free = (b, refl, free)
run_calls-AllFree (c ∷ cs) b free =
    let (b1, run, free1) = all_free (λ x. x) (run_call c b) (λ k a. run_call-FreeAt c b k a free) in
    let (b2, rest, free2) = run_calls-AllFree cs b1 free1 in (b2, rw run rest, free2)

-- With no lock held, `Withdraw` from an account that is not in debt returns, and leaves no lock
-- held.
withdraw-AllFree :
    (id amount : ℤ) (b : Bank)
    → AllFree b
    → NoDebt id b
    → (b' : Bank) × (success : Bool) × (withdraw id amount b ≡ returns (b', success)) × AllFree b'
withdraw-AllFree id amount b free no_debt =
    let (r, run, free') =
      all_free (λ (x : Bank × Bool). x.0) (withdraw id amount b)
        (λ k a. withdraw_free id amount b k a free no_debt) in
    (r.0, r.1, run, free')

-- With no lock held, from an account in debt that is asked for no more than its balance, `Withdraw`
-- returns false with the account's lock held, so a later deposit or a look at the balance waits for
-- ever.
pub withdraw_keeps_lock :
    (id amount balance : ℤ) (b : Bank)
    → b.bank_locked ≡ false
    → b.accounts id ≡ some (record { balance = balance; locked = false })
    → balance <ℤ pos 0
    → amount ≤ℤ balance
    → (b' : Bank) × (withdraw id amount b ≡ returns (b', false))
      × ((more : ℤ) → deposit id more b' ≡ blocks)
      × (get_balance id b' ≡ blocks)
unfolding withdraw withdraw_locked deposit get_balance
withdraw_keeps_lock id amount balance b free has debt small = (
  record {
    bank_locked = false;
    accounts = λ k.
        if eqb_ℤ id k then some (record { balance = balance; locked = true }) else b.accounts k;
  },
  ground (arith, has),
  (λ more. ground arith),
  ground arith,
)

-- With the bank's lock free, `Withdraw` from an account that does not exist panics instead of
-- returning false.
withdraw_missing_panics :
    (id amount : ℤ) (b : Bank)
    → b.bank_locked ≡ false
    → b.accounts id ≡ none
    → withdraw id amount b ≡ panics
unfolding withdraw
withdraw_missing_panics id amount b free none_there = ground (arith, none_there)
