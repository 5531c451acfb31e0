-- ===== src/Bank/Threads/Mutexes.antt =====
-- bank.go: what a statement that returns has found, and what holds after one.
use cs_350_boston_u.Base.{
  ◌≡◌, sym, subst, ◌∙◌, true, false, Option-cases, some, Bool-cases, inl, inr, Outcome, returns,
  ◌>>=◌, Ensures, Ensures->>=, arith,
}
use cs_350_boston_u.Base.Int.{ℤ}
use cs_350_boston_u.Bank.{
  Account, Bank, put, lock_bank, unlock_bank, account_at, lock_account, unlock_account, set_balance,
}

returns-inj : (b b' : Bank) → returns b ≡ returns b' → b ≡ b'
returns-inj b b' e = cc

module _ (b : Bank) where
  pub account_at-returns :
      (id : ℤ) (a : Account) → account_at id b ≡ returns a → b.accounts id ≡ some a
  account_at-returns id a run = elim (Option-cases (b.accounts id)) [
    | inl missing ↦ absurd (ground (arith, missing, run))
    | inr (a', has) ↦ ground (arith, has, run)
  ]

  lock_bank-returns :
      (b' : Bank)
      → lock_bank b ≡ returns b'
      → (b.bank_locked ≡ false) × (record b { bank_locked = true } ≡ b')
  lock_bank-returns b' run = elim (Bool-cases b.bank_locked) [
    | inl held ↦ absurd (ground (arith, held, run))
    | inr free ↦ (free, returns-inj _ _ (sym (ground (arith, free)) ∙ run))
  ]

  unlock_bank-returns :
      (b' : Bank)
      → unlock_bank b ≡ returns b'
      → (b.bank_locked ≡ true) × (record b { bank_locked = false } ≡ b')
  unlock_bank-returns b' run = elim (Bool-cases b.bank_locked) [
    | inl held ↦ (held, returns-inj _ _ (sym (ground (arith, held)) ∙ run))
    | inr free ↦ absurd (ground (arith, free, run))
  ]

  lock_account-returns :
      (id : ℤ) (b' : Bank)
      → lock_account id b ≡ returns b'
      → (a : Account) × (b.accounts id ≡ some a)
        × (a.locked ≡ false)
        × (put id (record a { locked = true }) b ≡ b')
  lock_account-returns id b' run = elim (Option-cases (b.accounts id)) [
    | inl missing ↦ absurd (ground (arith, missing, run))
    | inr (a, has) ↦ elim (Bool-cases a.locked) [
      | inl held ↦ absurd (ground (arith, has, held, run))
      | inr free ↦ (a, has, free, returns-inj _ _ (sym (ground (arith, has, free)) ∙ run))
    ]
  ]

  unlock_account-returns :
      (id : ℤ) (b' : Bank)
      → unlock_account id b ≡ returns b'
      → (a : Account) × (b.accounts id ≡ some a) × (put id (record a { locked = false }) b ≡ b')
  unlock_account-returns id b' run = elim (Option-cases (b.accounts id)) [
    | inl missing ↦ absurd (ground (arith, missing, run))
    | inr (a, has) ↦ elim (Bool-cases a.locked) [
      | inl held ↦ (a, has, returns-inj _ _ (sym (ground (arith, has, held)) ∙ run))
      | inr free ↦ absurd (ground (arith, has, free, run))
    ]
  ]

  set_balance-returns :
      (id balance : ℤ) (b' : Bank)
      → set_balance id balance b ≡ returns b'
      → (a : Account) × (b.accounts id ≡ some a) × (put id (record a { balance = balance }) b ≡ b')
  set_balance-returns id balance b' run = elim (Option-cases (b.accounts id)) [
    | inl missing ↦ absurd (ground (arith, missing, run))
    | inr (a, has) ↦ (a, has, returns-inj _ _ (sym (ground (arith, has)) ∙ run))
  ]

module _ {A : Type 0} (P : A → Type 0) (b : Bank) where
  pub Ensures-lock_bank :
      (f : Bank → Outcome A)
      → (b.bank_locked ≡ false → Ensures P (f (record b { bank_locked = true })))
      → Ensures P (lock_bank b >>= f)
  Ensures-lock_bank f h = Ensures->>= P (lock_bank b) f (λ b' run.
      let (free, e) = lock_bank-returns b b' run in subst (λ x. Ensures P (f x)) e (h free))

  pub Ensures-unlock_bank :
      (f : Bank → Outcome A)
      → (b.bank_locked ≡ true → Ensures P (f (record b { bank_locked = false })))
      → Ensures P (unlock_bank b >>= f)
  Ensures-unlock_bank f h = Ensures->>= P (unlock_bank b) f (λ b' run.
      let (held, e) = unlock_bank-returns b b' run in subst (λ x. Ensures P (f x)) e (h held))

  pub Ensures-lock_account :
      (id : ℤ) (f : Bank → Outcome A)
      → ((a : Account)
          → b.accounts id ≡ some a
          → a.locked ≡ false
          → Ensures P (f (put id (record a { locked = true }) b)))
      → Ensures P (lock_account id b >>= f)
  Ensures-lock_account id f h = Ensures->>= P (lock_account id b) f (λ b' run.
      let (a, has, free, e) = lock_account-returns b id b' run in
      subst (λ x. Ensures P (f x)) e (h a has free))

  pub Ensures-unlock_account :
      (id : ℤ) (f : Bank → Outcome A)
      → ((a : Account)
          → b.accounts id ≡ some a
          → Ensures P (f (put id (record a { locked = false }) b)))
      → Ensures P (unlock_account id b >>= f)
  Ensures-unlock_account id f h = Ensures->>= P (unlock_account id b) f (λ b' run.
      let (a, has, e) = unlock_account-returns b id b' run in
      subst (λ x. Ensures P (f x)) e (h a has))

  pub Ensures-set_balance :
      (id balance : ℤ) (f : Bank → Outcome A)
      → ((a : Account)
          → b.accounts id ≡ some a
          → Ensures P (f (put id (record a { balance = balance }) b)))
      → Ensures P (set_balance id balance b >>= f)
  Ensures-set_balance id balance f h = Ensures->>= P (set_balance id balance b) f (λ b' run.
      let (a, has, e) = set_balance-returns b id balance b' run in
      subst (λ x. Ensures P (f x)) e (h a has))
