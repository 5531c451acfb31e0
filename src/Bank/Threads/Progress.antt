-- ===== src/Bank/Threads/Progress.antt =====
-- bank.go under concurrent calls: no deadlock. A goroutine that waits for its second account has locked one
-- with a smaller number, so along a chain of waiting goroutines the numbers grow.
use cs_350_boston_u.Base.{
  ℕ, zero, suc, ◌+◌, ◌≤◌, ◌<◌, ◌==◌, ==_iff, ◌≡◌, sym, subst, ap, ◌∙◌, Bool, true, false, Option,
  Option-cases, some, Bool-cases, inl, inr, if◌then◌else◌, returns, arith,
}
use cs_350_boston_u.Base.Int.{ℤ, eqb_ℤ, eqb→eq, ltb_ℤ}
use cs_350_boston_u.Bank.{Bank}
use cs_350_boston_u.Bank.Locks.{Call, deposits, transfers, compares, AllFree}
use cs_350_boston_u.Bank.Threads.{
  Pc, begins, wants_first, wants_second, returned, is_transfer, first_of, second_of, next, holds,
  is_in_bank, System, Reach,
}
use cs_350_boston_u.Bank.Threads.Effects.{fits}
use cs_350_boston_u.Bank.Threads.Owners.{and_false, Owners, owns}
use cs_350_boston_u.Bank.Threads.Moves.{Standing}
use cs_350_boston_u.Bank.Threads.Moves.{Reach-Owners}
use cs_350_boston_u.Bank.Threads.Turns.{moves, ended, waits_bank, waits, turn}

-- The calls of the first `n` goroutines whose second account has a number above `k`.
count_above : (ℕ → Call) → ℤ → ℕ → ℕ
count_above call k zero = 0
count_above call k (suc n) = (if ltb_ℤ k (second_of (call n)) then 1 else 0) + count_above call k n

count_above_mono :
    (call : ℕ → Call) (k k' : ℤ) (n : ℕ)
    → ltb_ℤ k k' ≡ true
    → count_above call k' n ≤ count_above call k n
unfolding count_above
count_above_mono call k k' zero up = omega arith
count_above_mono call k k' (suc n) up = ground (arith, count_above_mono call k k' n up)

count_above-lt :
    (call : ℕ → Call) (k : ℤ) (n j : ℕ)
    → j < n
    → ltb_ℤ k (second_of (call j)) ≡ true
    → count_above call (second_of (call j)) n < count_above call k n
unfolding count_above
count_above-lt call k zero j lt up = absurd (omega arith)
count_above-lt call k (suc n) j lt up = elim (Bool-cases (n == j)) [
  | inl last ↦ ground (
    arith,
    last,
    up,
    count_above_mono call k (second_of (call j)) n up,
    ap (λ i. second_of (call i)) ((==_iff n j).0 last),
  )
  | inr other ↦ ground (arith, up, count_above-lt call k n j (ground (arith, other, lt)) up)
]

first_below_second :
    (c : Call) → fits c wants_second ≡ true → ltb_ℤ (first_of c) (second_of c) ≡ true
first_below_second (deposits id amount) fit = cc
first_below_second (transfers sender receiver amount overdraw) fit = ground (arith, fit)
first_below_second (compares id amount threshold) fit = cc

not_holding : (c : Call) (p q : Pc) (k : ℤ) → p ≡ q → holds c q k ≡ false → holds c p k ≡ true → ⊥
not_holding c p q k at none_held held = cc (ap (λ r. holds c r k) at, none_held, held)

first_held : (c : Call) (k : ℤ) → holds c wants_second k ≡ true → eqb_ℤ (first_of c) k ≡ true
first_held c k held = elim (Bool-cases (eqb_ℤ (first_of c) k)) [
  | inl same ↦ same
  | inr other ↦ absurd (cc (other, held, and_false (is_transfer c)))
]

-- Some goroutine can make its next step.
abbrev pub SomeMoves : ℕ → (ℕ → Call) → System → Type 0
SomeMoves n call s =
    (j : ℕ) × (j < n) × (b' : Bank) × (p' : Pc) × (next (call j) (s.pc j) s.bank ≡ returns (b', p'))

module _ (n : ℕ) (call : ℕ → Call) (s : System) (o : Owners n call s)
    (standing : Standing n call s) where
  -- The owner of an account's mutex moves, or the goroutine that it waits for, and so on.
  owner_moves :
      (fuel : ℕ) (k : ℤ) (j : ℕ)
      → o.owner k ≡ some j
      → count_above call k n < fuel
      → SomeMoves n call s
  owner_moves zero k j owned enough = absurd (omega arith)
  owner_moves (suc fuel) k j owned enough =
      let lt = o.below k j owned in
      let held : holds (call j) (s.pc j) k ≡ true =
        o.holders j lt k ∙ ap (λ x. owns x j) owned ∙ ground arith in
      elim (turn n call s j o standing lt) [
        | moves b' p' run ↦ (j, lt, b', p', run)
        | ended result at ↦ absurd (
            not_holding (call j) (s.pc j) (returned result) k at (and_false (is_transfer (call j)))
              held)
        | waits_bank at held' stuck ↦
            absurd
              (not_holding (call j) (s.pc j) begins k at (and_false (is_transfer (call j))) held)
        | waits k' j' owned' (inl at) stuck ↦
            absurd (
              not_holding (call j) (s.pc j) wants_first k at (and_false (is_transfer (call j)))
                held)
        | waits k' j' owned' (inr (at, second)) stuck ↦
            let fit : fits (call j) wants_second ≡ true =
              ap (fits (call j)) (sym at) ∙ (standing j lt).0 in
            let first =
              eqb→eq (first_of (call j)) k
                (first_held (call j) k (subst (λ p. holds (call j) p k ≡ true) at held)) in
            let up : ltb_ℤ k (second_of (call j)) ≡ true =
              subst (λ x. ltb_ℤ x (second_of (call j)) ≡ true) first
                (first_below_second (call j) fit) in
            owner_moves fuel k' j' owned' (
              subst (λ x. count_above call x n < fuel) (sym second)
                (omega (arith, count_above-lt call k n j lt up, enough)))
      ]

  in_bank_moves : (j : ℕ) → j < n → is_in_bank (s.pc j) ≡ true → SomeMoves n call s
  in_bank_moves j lt inside = elim (turn n call s j o standing lt) [
    | moves b' p' run ↦ (j, lt, b', p', run)
    | ended result at ↦ absurd (cc (ap is_in_bank at, inside))
    | waits_bank at held stuck ↦ absurd (cc (ap is_in_bank at, inside))
    | waits k j' owned (inl at) stuck ↦ absurd (cc (ap is_in_bank at, inside))
    | waits k j' owned (inr (at, second)) stuck ↦ absurd (cc (ap is_in_bank at, inside))
  ]

-- While some call has not returned, some goroutine can make its next step.
pub some_goroutine_moves :
    (n : ℕ) (call : ℕ → Call) (b : Bank) (s : System) (i : ℕ)
    → AllFree b
    → Reach n call b s
    → i < n
    → ((result : Option Bool) → (s.pc i ≡ returned result) → ⊥)
    → SomeMoves n call s
some_goroutine_moves n call b s i free reach lt running =
    let (o, standing) = Reach-Owners n call b s free reach in
    elim (turn n call s i o standing lt) [
      | moves b' p' run ↦ (i, lt, b', p', run)
      | ended result at ↦ absurd (running result at)
      | waits_bank at held stuck ↦ elim (Option-cases o.bank_owner) [
        | inl nobody ↦ absurd (ground (arith, o.bank_lock, held, nobody))
        | inr (j, owned) ↦
            let lt' = o.bank_below j owned in
            in_bank_moves n call s o standing j lt'
              (o.visitor j lt' ∙ ap (λ x. owns x j) owned ∙ ground arith)
      ]
      | waits k j owned at stuck ↦
          owner_moves n call s o standing (suc (count_above call k n)) k j owned (omega arith)
    ]
