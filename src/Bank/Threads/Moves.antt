-- ===== src/Bank/Threads/Moves.antt =====
-- bank.go under concurrent calls: where a goroutine can move on, and what it may wait for.
use cs_350_boston_u.Base.{
  ℕ, ◌<◌, ◌≡◌, refl, ap, ◌∙◌, true, Option-cases, some, Bool-cases, inl, inr, Ensures-returns,
  arith,
}
use cs_350_boston_u.Base.Int.{ℤ, eqb_ℤ, eqb→eq}
use cs_350_boston_u.Bank.{Account, Bank, put, has_account}
use cs_350_boston_u.Bank.Locks.{Call, deposits, transfers, compares, AllFree}
use cs_350_boston_u.Bank.Threads.{Pc, goes_on, holds, System, moved_on, Reach, start, step}
use cs_350_boston_u.Bank.Threads.Effects.{
  Effect, takes_bank, gives_bank, takes, gives, writes, stays, next-Results, Results, fits, past,
}
use cs_350_boston_u.Bank.Threads.Handover.{Owners-Effect}
use cs_350_boston_u.Bank.Threads.Owners.{Owners, Owners-start, moved_cases}

has_account-put :
    (id k : ℤ) (a' a : Account) (b : Bank)
    → b.accounts id ≡ some a
    → has_account k (put id a' b) ≡ has_account k b
has_account-put id k a' a b has = elim (Bool-cases (eqb_ℤ id k)) [
  | inl at ↦ ground (arith, at, has, ap b.accounts (eqb→eq id k at))
  | inr off ↦ ground (arith, off)
]

-- No statement adds or removes an account.
pub has_account-Effect :
    (c : Call) (p : Pc) (b : Bank) (p' : Pc) (b' : Bank) (k : ℤ)
    → Effect c p b p' b'
    → has_account k b' ≡ has_account k b
has_account-Effect c p b p' b' k (takes_bank free eq out enters same) = rw eq refl
has_account-Effect c p b p' b' k (gives_bank held eq inside leaves same) = rw eq refl
has_account-Effect c p b p' b' k (takes id a has free eq out more) =
    rw eq (has_account-put id k _ a b has)
has_account-Effect c p b p' b' k (gives id a has held eq out less) =
    rw eq (has_account-put id k _ a b has)
has_account-Effect c p b p' b' k (writes id a balance has held eq out same) =
    rw eq (has_account-put id k _ a b has)
has_account-Effect c p b p' b' k (stays eq out same) = rw eq refl

goes_on-Effect :
    (d c : Call) (p : Pc) (b : Bank) (p' : Pc) (b' : Bank)
    → Effect c p b p' b'
    → goes_on d b' ≡ goes_on d b
goes_on-Effect (deposits id amount) c p b p' b' e = has_account-Effect c p b p' b' id e
goes_on-Effect (transfers sender receiver amount overdraw) c p b p' b' e =
    rw (has_account-Effect c p b p' b' sender e, has_account-Effect c p b p' b' receiver e) refl
goes_on-Effect (compares id amount threshold) c p b p' b' e =
    rw (has_account-Effect c p b p' b' id e) refl

-- Every goroutine stands where its call may stand, and past the bank's mutex only if it goes on.
abbrev pub Stands : Call → Pc → Bank → Type 0
Stands c p b = (fits c p ≡ true) × (past p ≡ true → goes_on c b ≡ true)

abbrev pub Standing : ℕ → (ℕ → Call) → System → Type 0
Standing n call s = (i : ℕ) → i < n → Stands (call i) (s.pc i) s.bank

step-Standing :
    (n : ℕ) (call : ℕ → Call) (s : System) (i : ℕ) (p' : Pc) (b' : Bank)
    → i < n
    → Standing n call s
    → Results (call i) (s.pc i) s.bank (b', p')
    → Standing n call (moved_on s i b' p')
step-Standing n call s i p' b' lt standing (effect, fit, onward) =
    moved_cases s i p' (λ j p. j < n → Stands (call j) p b')
      (λ lt'. (
        fit,
        λ h.
            goes_on-Effect (call i) (call i) (s.pc i) s.bank p' b' effect
            ∙ elim (onward h) [ inl already ↦ (standing i lt).1 already | inr goes ↦ goes ],
      ))
      (λ j other lt'. (
        (standing j lt').0,
        λ h. goes_on-Effect (call j) (call i) (s.pc i) s.bank p' b' effect ∙ (standing j lt').1 h,
      ))

pub Reach-Owners :
    (n : ℕ) (call : ℕ → Call) (b : Bank) (s : System)
    → AllFree b
    → Reach n call b s
    → Owners n call s × Standing n call s
Reach-Owners n call b _ free start = (Owners-start n call b free, λ i lt. (refl, λ h. cc))
Reach-Owners n call b _ free (step s i b' p' before lt run) =
    let (owners, standing) = Reach-Owners n call b s free before in
    let results =
      Ensures-returns (Results (call i) (s.pc i) s.bank) run
        (next-Results (call i) (s.pc i) s.bank ((standing i lt).0)) in
    (
      Owners-Effect n call s i p' b' lt owners results.0,
      step-Standing n call s i p' b' lt standing results,
    )

-- Of two goroutines, at most one holds the mutex of an account.
-- Goroutines that each call Deposit, Transfer or DepositAndCompare once, on a bank with no lock held: in
-- any state that an interleaving of them reaches, two that stand between the lock and the unlock of the
-- same account are one.
pub one_holder :
    (n : ℕ) (call : ℕ → Call) (b : Bank) (s : System) (i j : ℕ) (k : ℤ)
    → AllFree b
    → Reach n call b s
    → i < n
    → j < n
    → holds (call i) (s.pc i) k ≡ true
    → holds (call j) (s.pc j) k ≡ true
    → i ≡ j
one_holder n call b s i j k free reach lt lt' mine yours =
    let (owners, _) = Reach-Owners n call b s free reach in
    elim (Option-cases (owners.owner k)) [
      | inl nobody ↦ absurd (ground (arith, owners.holders i lt k, mine, nobody))
      | inr (h, has) ↦
          ground (arith, owners.holders i lt k, owners.holders j lt' k, mine, yours, has)
    ]
