-- ===== src/Bank/Threads/Owners.antt =====
-- bank.go under concurrent calls: every mutex has at most one owner, the goroutine that stands between its
-- lock and its unlock.
use cs_350_boston_u.Base.{
  ℕ, ◌<◌, ◌==◌, ==_iff, ◌≡◌, refl, subst, Bool, true, false, ◌&&◌, ◌||◌, Option, Option-cases, none,
  some, Bool-cases, inl, inr, if◌then◌else◌,
}
use cs_350_boston_u.Base.Int.{ℤ}
use cs_350_boston_u.Bank.{Account, Bank}
use cs_350_boston_u.Bank.Locks.{Call, AllFree}
use cs_350_boston_u.Bank.Threads.{Pc, is_transfer, begins, holds, is_in_bank, System}

abbrev pub owns : Option ℕ → ℕ → Bool
owns none i = false
owns (some j) i = j == i

abbrev pub is_owned : Option ℕ → Bool
is_owned none = false
is_owned (some i) = true

-- An account's mutex is locked when it has an owner; a missing account has none.
abbrev pub Locked : Option Account → Option ℕ → Type 0
Locked none owner = owner ≡ none
Locked (some a) owner = a.locked ≡ is_owned owner

pub or_true : (b : Bool) → (b || true) ≡ true
or_true true = refl
or_true false = refl

pub or_false : (b : Bool) → (b || false) ≡ b
or_false true = refl
or_false false = refl

pub and_true : (b : Bool) → (b && true) ≡ b
and_true true = refl
and_true false = refl

pub and_false : (b : Bool) → (b && false) ≡ false
and_false true = refl
and_false false = refl

pub record Owners (n : ℕ) (call : ℕ → Call) (s : System) : Type 0 where
  pub owner : ℤ → Option ℕ
  pub bank_owner : Option ℕ
  pub holders : (i : ℕ) → i < n → (k : ℤ) → holds (call i) (s.pc i) k ≡ owns (owner k) i
  pub locks : (k : ℤ) → Locked (s.bank.accounts k) (owner k)
  pub below : (k : ℤ) (i : ℕ) → owner k ≡ some i → i < n
  pub visitor : (i : ℕ) → i < n → is_in_bank (s.pc i) ≡ owns bank_owner i
  pub bank_lock : s.bank.bank_locked ≡ is_owned bank_owner
  pub bank_below : (i : ℕ) → bank_owner ≡ some i → i < n

-- A goroutine has moved on, and the others stand where they stood.
pub moved_cases :
    (s : System) (i : ℕ) (p' : Pc) (Q : ℕ → Pc → Type 0)
    → Q i p'
    → ((j : ℕ) → (i == j) ≡ false → Q j (s.pc j))
    → (j : ℕ) → Q j (if i == j then p' else s.pc j)
moved_cases s i p' Q here others j = elim (Bool-cases (i == j)) [
  | inl same ↦ rw same (subst (λ k. Q k p') ((==_iff i j).0 same) here)
  | inr other ↦ rw other (others j other)
]

-- Before the calls, nobody owns a mutex.
pub Owners-start :
    (n : ℕ) (call : ℕ → Call) (b : Bank)
    → AllFree b
    → Owners n call (record { bank = b; pc = λ j. begins })
Owners-start n call b free = record {
  owner = λ k. none;
  bank_owner = none;
  holders = λ i lt k. none_held (call i) k;
  locks = λ k. unlocked k;
  below = λ k i e. cc;
  visitor = λ i lt. refl;
  bank_lock = free.0;
  bank_below = λ i e. cc;
}
  where
    none_held : (c : Call) (k : ℤ) → holds c begins k ≡ false
    none_held c k = and_false (is_transfer c)

    unlocked : (k : ℤ) → Locked (b.accounts k) none
    unlocked k = elim (Option-cases (b.accounts k)) [
      | inl missing ↦ rw missing refl
      | inr (a, has) ↦ rw has (free.1 k a has)
    ]
