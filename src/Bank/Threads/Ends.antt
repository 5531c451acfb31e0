-- ===== src/Bank/Threads/Ends.antt =====
-- bank.go under concurrent calls: every interleaving ends, with all calls returned.
use cs_350_boston_u.Base.{
  ℕ, zero, suc, ◌+◌, ◌*◌, ◌≤◌, ◌<◌, ◌==◌, ==_iff, ◌≡◌, ◌⊎◌, refl, subst, ap, ◌∙◌, Bool, true, false,
  Option, Option-cases, some, Bool-cases, inl, inr, if◌then◌else◌, Ensures, Ensures->>=,
  Ensures-returns, arith,
}
use cs_350_boston_u.Base.Int.{ℤ}
use cs_350_boston_u.Base.Word.{add_int, sub_int}
use cs_350_boston_u.Bank.{
  Account, Bank, account_at, set_balance, lock_account, unlock_account, lock_bank, unlock_bank,
}
use cs_350_boston_u.Bank.Locks.{Call, deposits, transfers, compares, AllFree}
use cs_350_boston_u.Bank.Threads.{
  Pc, begins, in_bank, wants_first, wants_second, entered, computed, credited, approved, debited,
  leaving, left_second, returned, is_transfer, first_of, second_of, is_idle, next_inside, next,
  holds, is_in_bank, System, Reach, start, step,
}
use cs_350_boston_u.Bank.Threads.Owners.{and_false, Owners, Locked, owns, is_owned}
use cs_350_boston_u.Bank.Threads.Moves.{Reach-Owners}
use cs_350_boston_u.Bank.Threads.Progress.{SomeMoves, some_goroutine_moves}

-- The most statements that are left.
rank : Pc → ℕ
rank begins = 9
rank in_bank = 8
rank wants_first = 7
rank wants_second = 6
rank entered = 5
rank approved = 4
rank debited = 3
rank (computed balance) = 3
rank credited = 3
rank (leaving result) = 2
rank (left_second result) = 1
rank (returned result) = 0

abbrev Lowers : Pc → Bank × Pc → Type 0
Lowers p (b', p') = rank p' < rank p

next_inside-Lowers : (c : Call) (p : Pc) (b : Bank) → Ensures (Lowers p) (next_inside c p b)
unfolding next_inside rank
next_inside-Lowers (deposits id amount) entered b =
    Ensures->>= _ (account_at id b) _ (λ a e. omega arith)
next_inside-Lowers (deposits id amount) (computed balance) b =
    Ensures->>= _ (set_balance id balance b) _ (λ b' e. omega arith)
next_inside-Lowers (compares id amount threshold) entered b =
    Ensures->>= _ (account_at id b) _
      (λ a e. Ensures->>= _ (set_balance id (add_int a.balance amount) b) _ (λ b' e'. omega arith))
next_inside-Lowers (compares id amount threshold) credited b =
    Ensures->>= _ (account_at id b) _ (λ a e. omega arith)
next_inside-Lowers (transfers sender receiver amount overdraw) entered b =
    Ensures->>= _ (account_at sender b) _ (λ a e. ground arith)
next_inside-Lowers (transfers sender receiver amount overdraw) approved b =
    Ensures->>= _ (account_at sender b) _ (λ a e.
      Ensures->>= _ (set_balance sender (sub_int a.balance amount) b) _ (λ b' e'. omega arith))
next_inside-Lowers (transfers sender receiver amount overdraw) debited b =
    Ensures->>= _ (account_at receiver b) _ (λ a e.
      Ensures->>= _ (set_balance receiver (add_int a.balance amount) b) _ (λ b' e'. omega arith))
next_inside-Lowers c p b = tt

next-Lowers : (c : Call) (p : Pc) (b : Bank) → Ensures (Lowers p) (next c p b)
unfolding next rank
next-Lowers c begins b = elim (Bool-cases (is_idle c)) [
  | inl idle ↦ rw idle (omega arith)
  | inr busy ↦ rw busy (Ensures->>= _ (lock_bank b) _ (λ b' e. omega arith))
]
next-Lowers c in_bank b = Ensures->>= _ (unlock_bank b) _ (λ b' e. ground arith)
next-Lowers c wants_first b = Ensures->>= _ (lock_account (first_of c) b) _ (λ b' e. ground arith)
next-Lowers c wants_second b = Ensures->>= _ (lock_account (second_of c) b) _ (λ b' e. omega arith)
next-Lowers c (leaving result) b =
    Ensures->>= _ (unlock_account (second_of c) b) _ (λ b' e. ground arith)
next-Lowers c (left_second result) b =
    Ensures->>= _ (unlock_account (first_of c) b) _ (λ b' e. omega arith)
next-Lowers c (returned result) b = tt
next-Lowers c p b = next_inside-Lowers c p b

-- The sum over the first `n` goroutines.
total : (ℕ → Pc) → ℕ → ℕ
total pc zero = 0
total pc (suc n) = rank (pc n) + total pc n

total_other :
    (pc : ℕ → Pc) (i : ℕ) (p : Pc) (n : ℕ)
    → n ≤ i
    → total (λ j. if i == j then p else pc j) n ≡ total pc n
unfolding total
total_other pc i p zero le = refl
total_other pc i p (suc n) le =
    let off : (i == n) ≡ false = ground (arith, le) in
    rw off (ap (λ t. rank (pc n) + t) (total_other pc i p n (omega arith)))

total_falls :
    (pc : ℕ → Pc) (i : ℕ) (p : Pc) (n : ℕ)
    → i < n
    → rank p < rank (pc i)
    → total (λ j. if i == j then p else pc j) n < total pc n
unfolding total
total_falls pc i p zero lt falls = absurd (omega arith)
total_falls pc i p (suc n) lt falls = elim (Bool-cases (i == n)) [
  | inl last ↦
      let same = (==_iff i n).0 last in
      rw last (
        omega
          (arith, total_other pc i p n (omega (arith, same)), falls, ap (λ j. rank (pc j)) same))
  | inr other ↦ rw other (omega (arith, total_falls pc i p n (ground (arith, other, lt)) falls))
]

-- The number of steps of an interleaving.
abbrev pub steps : {n : ℕ} {call : ℕ → Call} {b : Bank} {s : System} → Reach n call b s → ℕ
steps start = 0
steps (step s i b' p' before lt run) = suc (steps before)

total_start : (n : ℕ) → total (λ j. begins) n ≡ 9 * n
unfolding total rank
total_start zero = refl
total_start (suc n) = omega (arith, total_start n)

steps_bound :
    (n : ℕ) (call : ℕ → Call) (b : Bank) (s : System) (reach : Reach n call b s)
    → steps reach + total s.pc n ≤ 9 * n
steps_bound n call b _ start = omega (arith, total_start n)
steps_bound n call b _ (step s i b' p' before lt run) =
    let falls : rank p' < rank (s.pc i) =
      Ensures-returns (Lowers (s.pc i)) run (next-Lowers (call i) (s.pc i) s.bank) in
    omega (arith, steps_bound n call b s before, total_falls s.pc i p' n lt falls)

abbrev pub Returned : Pc → Type 0
Returned p = (result : Option Bool) × (p ≡ returned result)

returned_cases : (p : Pc) → Returned p ⊎ ((result : Option Bool) → (p ≡ returned result) → ⊥)
returned_cases (returned result) = inl (result, refl)
returned_cases p = inr (λ result e. cc)

first_running :
    (pc : ℕ → Pc) (n : ℕ)
    → ((i : ℕ) → i < n → Returned (pc i))
      ⊎ ((i : ℕ) × (i < n) × ((result : Option Bool) → (pc i ≡ returned result) → ⊥))
first_running pc zero = inl (λ i lt. absurd (omega arith))
first_running pc (suc n) = elim (returned_cases (pc n)) [
  | inr running ↦ inr (n, omega arith, running)
  | inl last ↦ elim (first_running pc n) [
    | inr (i, lt, running) ↦ inr (i, omega arith, running)
    | inl all ↦ inl (λ i lt. elim (Bool-cases (n == i)) [
      | inl same ↦ subst (λ j. Returned (pc j)) ((==_iff n i).0 same) last
      | inr other ↦ all i (ground (arith, other, lt))
    ])
  ]
]

i_owns : (i : ℕ) → owns (some i) i ≡ true
i_owns i = ground arith

-- Where every call has returned, nobody owns a mutex.
Owners-AllFree :
    (n : ℕ) (call : ℕ → Call) (s : System)
    → Owners n call s
    → ((i : ℕ) → i < n → Returned (s.pc i))
    → AllFree s.bank
Owners-AllFree n call s o all = (bank_free, account_free)
  where
    bank_free : s.bank.bank_locked ≡ false
    bank_free = elim (Option-cases o.bank_owner) [
      | inl nobody ↦ o.bank_lock ∙ ap is_owned nobody
      | inr (i, owned) ↦
          let lt = o.bank_below i owned in
          absurd (ground (arith, o.visitor i lt, owned, ap is_in_bank ((all i lt).1)))
    ]

    account_free : (k : ℤ) (a : Account) → s.bank.accounts k ≡ some a → a.locked ≡ false
    account_free k a has = elim (Option-cases (o.owner k)) [
      | inl nobody ↦ subst (λ x. Locked x (o.owner k)) has (o.locks k) ∙ ap is_owned nobody
      | inr (i, owned) ↦
          let lt = o.below k i owned in
          absurd (
            cc (
              o.holders i lt k,
              ap (λ x. owns x i) owned,
              ap (λ p. holds (call i) p k) ((all i lt).1),
              and_false (is_transfer (call i)),
              i_owns i,
            ))
    ]

-- Goroutines that each call Deposit, Transfer or DepositAndCompare once, on a bank with no lock held, come
-- to an end in every interleaving, whatever the accounts and amounts: there are at most nine steps for
-- each, and at any point either some goroutine can make its next step, or all the calls have returned and
-- no lock is held.
pub interleavings_end :
    (n : ℕ) (call : ℕ → Call) (b : Bank) (s : System) (reach : Reach n call b s)
    → AllFree b
    → (steps reach ≤ 9 * n)
      × (SomeMoves n call s ⊎ (((i : ℕ) → i < n → Returned (s.pc i)) × AllFree s.bank))
interleavings_end n call b s reach free = (
  omega (arith, steps_bound n call b s reach),
  elim (first_running s.pc n) [
    | inr (i, lt, running) ↦ inl (some_goroutine_moves n call b s i free reach lt running)
    | inl all ↦ inr (all, Owners-AllFree n call s ((Reach-Owners n call b s free reach).0) all)
  ],
)
