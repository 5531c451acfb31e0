-- ===== src/Bank/Threads/Agreement.antt =====
-- bank.go under concurrent calls, against the same calls made one after another.
use cs_350_boston_u.Base.{
  ℕ, ◌<◌, ◌==◌, ◌≡◌, ◌↔◌, refl, sym, fun_ext, ap, ◌∙◌, Bool, true, false, ◌||◌, Option, none, some,
  Bool-cases, inl, inr, if◌then◌else◌, List, [], ◌∷◌, Outcome, returns, ◌>>=◌, Returns, Returns-map,
  Returns->>=, arith,
}
use cs_350_boston_u.Base.Int.{ℤ}
use cs_350_boston_u.Bank.{Bank}
use cs_350_boston_u.Bank.Locks.{Call, AllFree}
use cs_350_boston_u.Bank.Ledger.{Ledger, ledger_of, book}
use cs_350_boston_u.Bank.Books.{make_call, Booked, make_call-Booked}
use cs_350_boston_u.Bank.Threads.{System, Reach}
use cs_350_boston_u.Bank.Threads.Changes.{outcome}
use cs_350_boston_u.Bank.Threads.Ends.{Returned}
use cs_350_boston_u.Bank.Threads.Orders.{ledger_after, result_in, Distinct}
use cs_350_boston_u.Bank.Threads.Serial.{serializable}

abbrev is_in : ℕ → List ℕ → Bool
is_in i [] = false
is_in i (j ∷ order) = (j == i) || is_in i order

abbrev NoRepeats : List ℕ → Type 0
NoRepeats [] = Unit {0}
NoRepeats (i ∷ order) = (is_in i order ≡ false) × NoRepeats order

-- Each of the first `n` numbers once, in some order.
abbrev pub IsOrder : ℕ → List ℕ → Type 0
IsOrder n order = NoRepeats order × ((i : ℕ) → (is_in i order ≡ true) ↔ (i < n))

module _ (call : ℕ → Call) where
  -- The calls of the goroutines one after another, the last of the list first: the bank at the end, and the
  -- result of each call that was made.
  unfoldable pub make_calls : List ℕ → Bank → Outcome (Bank × (ℕ → Option (Option Bool)))
  make_calls [] b = returns (b, λ i. none)
  make_calls (i ∷ order) b = do
    (b1, results) ← make_calls order b
    (b2, result) ← make_call (call i) b1
    returns (b2, λ j. if i == j then some result else results j)

  abbrev AsBooked : List ℕ → Bank → Bank × (ℕ → Option (Option Bool)) → Type 0
  AsBooked order b (b', results) =
      AllFree b'
      × ((k : ℤ) → ledger_of b' k ≡ ledger_after call (ledger_of b) order k)
      × ((i : ℕ) → results i ≡ result_in call (ledger_of b) order i)

  make_calls-AsBooked :
      (order : List ℕ) (b : Bank) → AllFree b → Returns (AsBooked order b) (make_calls order b)
  unfolding make_calls ledger_after result_in
  make_calls-AsBooked [] b free = (free, (λ k. refl), (λ i. refl))
  make_calls-AsBooked (i ∷ order) b free =
      Returns->>= (AsBooked order b) (AsBooked (i ∷ order) b) (make_calls order b) _
        (make_calls-AsBooked order b free)
        (λ (b1, results) (free1, ledger, same).
          let e : ledger_of b1 ≡ ledger_after call (ledger_of b) order = fun_ext ledger in
          Returns->>= (Booked (call i) b1) (AsBooked (i ∷ order) b) (make_call (call i) b1) _
            (make_call-Booked (call i) b1 free1)
            (λ (b2, result) (free2, booked, known). (
              free2,
              (λ k. booked k ∙ ap (λ v. (book (call i) v).0 k) e),
              (λ j. elim (Bool-cases (i == j)) [
                | inl here ↦ rw here (ap some (known ∙ ap (λ v. (book (call i) v).1) e))
                | inr other ↦ rw other (same j)
              ]),
            )))

  module _ (v : Ledger) where
    result_in-none :
        (order : List ℕ) (i : ℕ) → result_in call v order i ≡ none → is_in i order ≡ false
    unfolding result_in
    result_in-none [] i missing = refl
    result_in-none (j ∷ order) i missing = elim (Bool-cases (j == i)) [
      | inl here ↦ absurd (ground (arith, here, missing))
      | inr other ↦ rw other (result_in-none order i (ground (arith, other, missing)))
    ]

    result_in-some :
        (order : List ℕ) (i : ℕ) (r : Option Bool)
        → result_in call v order i ≡ some r
        → is_in i order ≡ true
    unfolding result_in
    result_in-some [] i r there = cc
    result_in-some (j ∷ order) i r there = elim (Bool-cases (j == i)) [
      | inl here ↦ rw here refl
      | inr other ↦ rw other (result_in-some order i r (ground (arith, other, there)))
    ]

    Distinct-NoRepeats : (n : ℕ) (order : List ℕ) → Distinct call v n order → NoRepeats order
    Distinct-NoRepeats n [] distinct = tt
    Distinct-NoRepeats n (i ∷ order) (lt, new, distinct) =
        (result_in-none order i new, Distinct-NoRepeats n order distinct)

    Distinct-lt :
        (n : ℕ) (order : List ℕ) (i : ℕ) → Distinct call v n order → is_in i order ≡ true → i < n
    Distinct-lt n [] i distinct there = cc
    Distinct-lt n (j ∷ order) i (lt, new, distinct) there = elim (Bool-cases (j == i)) [
      | inl here ↦ ground (arith, here, lt)
      | inr other ↦ Distinct-lt n order i distinct (ground (arith, other, there))
    ]

-- Goroutines that each call Deposit, Transfer or DepositAndCompare once, on a bank with no lock held: when
-- all have returned, there is an order of the calls, each once, such that the same calls made one after
-- another in that order return, with the same result for each call and the same balance in every account.
pub interleaving-make_calls :
    (n : ℕ) (call : ℕ → Call) (b : Bank) (s : System)
    → AllFree b
    → Reach n call b s
    → ((i : ℕ) → i < n → Returned (s.pc i))
    → (order : List ℕ) × IsOrder n order
      × Returns
          (λ o.
            ((k : ℤ) → ledger_of s.bank k ≡ ledger_of o.0 k)
            × ((i : ℕ) → i < n → outcome (s.pc i) ≡ o.1 i))
          (make_calls call order b)
interleaving-make_calls n call b s free reach all =
    let (order, distinct, results, ledger) = serializable n call b s free reach all in
    let v = ledger_of b in
    (
      order,
      (
        Distinct-NoRepeats call v n order distinct,
        λ i. (
          λ there. Distinct-lt call v n order i distinct there,
          λ lt.
              let (r, at) = all i lt in
              result_in-some call v order i r (sym (results i lt) ∙ ap outcome at),
        ),
      ),
      Returns-map {A = Bank × (ℕ → Option (Option Bool))} {P = AsBooked call order b}
          (make_calls call order b)
          (λ o (free', same, known).
            ((λ k. ledger k ∙ sym (same k)), (λ i lt. results i lt ∙ sym (known i))))
          (make_calls-AsBooked call order b free),
    )
