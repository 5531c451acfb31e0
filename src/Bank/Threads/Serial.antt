-- ===== src/Bank/Threads/Serial.antt =====
-- bank.go under concurrent calls: the calls come out as if they were made one after another, in the order in
-- which their results become known.
use cs_350_boston_u.Base.{
  ℕ, ◌<◌, ◌==◌, ==_iff, ◌≡◌, refl, sym, subst, ap, ◌∙◌, true, false, Option-cases, Bool-cases, inl,
  inr, if◌then◌else◌, List, [], ◌∷◌, Ensures-returns, arith,
}
use cs_350_boston_u.Base.Int.{ℤ}
use cs_350_boston_u.Bank.{Bank, has_account}
use cs_350_boston_u.Bank.Locks.{Call, deposits, transfers, compares, AllFree}
use cs_350_boston_u.Bank.Ledger.{Ledger, ledger_of, is_entered}
use cs_350_boston_u.Bank.Threads.{Pc, begins, holds, System, moved_on, Reach, start, step}
use cs_350_boston_u.Bank.Threads.Effects.{next-Results, Results}
use cs_350_boston_u.Bank.Threads.Owners.{moved_cases}
use cs_350_boston_u.Bank.Threads.Moves.{Reach-Owners, one_holder, has_account-Effect}
use cs_350_boston_u.Bank.Threads.Changes.{
  outcome, is_dirty, Local, Rest, Change, quiet, books, Changes, Agrees,
}
use cs_350_boston_u.Bank.Threads.Statements.{next-Changes}
use cs_350_boston_u.Bank.Threads.Ends.{Returned}
use cs_350_boston_u.Bank.Threads.Orders.{
  i_is_i, not_dirty, Local-same, ledger_after, result_in, Distinct, result_in-cons, result_in-other,
  Serial,
}

module _ (n : ℕ) (call : ℕ → Call) (b0 : Bank) (v : Ledger) (s : System) (i : ℕ) (p' : Pc)
    (b' : Bank) (free : AllFree b0) (reach : Reach n call b0 s) (lt : i < n)
    (serial : Serial n call v s) where
  other_free :
      (j : ℕ) (k : ℤ)
      → j < n
      → (i == j) ≡ false
      → holds (call i) (s.pc i) k ≡ true
      → holds (call j) (s.pc j) k ≡ false
  other_free j k lt' other mine = elim (Bool-cases (holds (call j) (s.pc j) k)) [
    | inr theirs ↦ theirs
    | inl yours ↦
        absurd (ground (arith, other, one_holder n call b0 s i j k free reach lt lt' mine yours))
  ]

  my_free :
      (j : ℕ) (k : ℤ)
      → j < n
      → (i == j) ≡ false
      → holds (call j) (s.pc j) k ≡ true
      → holds (call i) (s.pc i) k ≡ false
  my_free j k lt' other yours = elim (Bool-cases (holds (call i) (s.pc i) k)) [
    | inr free' ↦ free'
    | inl mine ↦
        absurd (ground (arith, other, one_holder n call b0 s i j k free reach lt lt' mine yours))
  ]

  my-Agrees : Agrees (call i) (s.pc i) s.bank (ledger_after call v serial.order)
  my-Agrees k mine clean = serial.agrees k (λ j lt'. elim (Bool-cases (i == j)) [
    | inl same ↦ subst (λ m. is_dirty (call m) (s.pc m) k ≡ false) ((==_iff i j).0 same) clean
    | inr other ↦ not_dirty (call j) (s.pc j) k (other_free j k lt' other mine)
  ])

  module _ (w : Ledger)
      (rest : Rest (call i) (s.pc i) s.bank (ledger_after call v serial.order) p' b' w) where
    step_locals : (j : ℕ) → j < n → Local (call j) (if i == j then p' else s.pc j) w b'
    step_locals =
        moved_cases s i p' (λ j p. j < n → Local (call j) p w b') (λ lt'. rest.local)
          (λ j other lt'.
            Local-same (call j) (s.pc j) (ledger_after call v serial.order) w s.bank b'
              (λ k held. rest.others k (my_free j k lt' other held)) (serial.locals j lt'))

    step_agrees :
        (k : ℤ)
        → ((j : ℕ) → j < n → is_dirty (call j) (if i == j then p' else s.pc j) k ≡ false)
        → ledger_of b' k ≡ w k
    step_agrees k clean = elim (Bool-cases (holds (call i) (s.pc i) k)) [
      | inl mine ↦ rest.agrees k mine (
          subst (λ t. is_dirty (call i) (if t then p' else s.pc i) k ≡ false) (i_is_i i)
            (clean i lt))
      | inr other ↦
          (rest.others k other).0
          ∙ serial.agrees k (λ j lt'. elim (Bool-cases (i == j)) [
            | inl same ↦
                subst (λ m. is_dirty (call m) (s.pc m) k ≡ false) ((==_iff i j).0 same)
                  (not_dirty (call i) (s.pc i) k other)
            | inr off ↦
                subst (λ t. is_dirty (call j) (if t then p' else s.pc j) k ≡ false) off
                  (clean j lt')
          ])
          ∙ sym ((rest.others k other).1)
    ]

  module _ (same_accounts : (k : ℤ) → has_account k b' ≡ has_account k s.bank) where
    Serial-Change :
        Change (call i) (s.pc i) s.bank (ledger_after call v serial.order) p' b'
        → Serial n call v (moved_on s i b' p')
    unfolding ledger_after
    Serial-Change (quiet same rest) = record {
      order = serial.order;
      distinct = serial.distinct;
      results =
          moved_cases s i p' (λ j p. j < n → outcome p ≡ result_in call v serial.order j)
            (λ lt'. same ∙ serial.results i lt) (λ j other lt'. serial.results j lt');
      locals = step_locals (ledger_after call v serial.order) rest;
      agrees = step_agrees (ledger_after call v serial.order) rest;
      entries = λ k. serial.entries k ∙ sym (same_accounts k);
    }
    Serial-Change (books before after rest) = record {
      order = i ∷ serial.order;
      distinct = (lt, sym (serial.results i lt) ∙ before, serial.distinct);
      results =
          moved_cases s i p' (λ j p. j < n → outcome p ≡ result_in call v (i ∷ serial.order) j)
            (λ lt'. after ∙ sym (result_in-cons call v i serial.order))
            (λ j other lt'.
              serial.results j lt' ∙ sym (result_in-other call v i j serial.order other));
      locals = step_locals (ledger_after call v (i ∷ serial.order)) rest;
      agrees = step_agrees (ledger_after call v (i ∷ serial.order)) rest;
      entries = λ k. rest.entries k ∙ serial.entries k ∙ sym (same_accounts k);
    }

Reach-Serial :
    (n : ℕ) (call : ℕ → Call) (b : Bank) (s : System)
    → AllFree b
    → Reach n call b s
    → Serial n call (ledger_of b) s
unfolding ledger_after result_in
Reach-Serial n call b _ free start = record {
  order = [];
  distinct = tt;
  results = λ i lt. refl;
  locals = λ i lt. at_start (call i);
  agrees = λ k clean. refl;
  entries = λ k. entered_iff k;
}
  where
    at_start : (c : Call) → Local c begins (ledger_of b) b
    at_start (deposits id amount) = tt
    at_start (transfers sender receiver amount overdraw) = tt
    at_start (compares id amount threshold) = tt

    entered_iff : (k : ℤ) → is_entered (ledger_of b k) ≡ has_account k b
    entered_iff k = elim (Option-cases (b.accounts k)) [
      | inl missing ↦ ground (arith, missing)
      | inr (a, has) ↦ ground (arith, has)
    ]
Reach-Serial n call b _ free (step s i b' p' before lt run) =
    let serial = Reach-Serial n call b s free before in
    let (owners, standing) = Reach-Owners n call b s free before in
    let results =
      Ensures-returns (Results (call i) (s.pc i) s.bank) run
        (next-Results (call i) (s.pc i) s.bank ((standing i lt).0)) in
    Serial-Change n call b (ledger_of b) s i p' b' free before lt serial
      (λ k. has_account-Effect (call i) (s.pc i) s.bank p' b' k results.0)
      (Ensures-returns
        (Changes (call i) (s.pc i) s.bank (ledger_after call (ledger_of b) serial.order)) run
        (next-Changes s.bank (ledger_after call (ledger_of b) serial.order) serial.entries (call i)
          (s.pc i) ((standing i lt).0) ((standing i lt).1) (serial.locals i lt)
          (my-Agrees n call b (ledger_of b) s i p' b' free before lt serial)))

Returned-is_dirty : (c : Call) (p : Pc) (k : ℤ) → Returned p → is_dirty c p k ≡ false
Returned-is_dirty (deposits id amount) p k (result, at) =
    ap (λ q. is_dirty (deposits id amount) q k) at
Returned-is_dirty (transfers sender receiver amount overdraw) p k (result, at) =
    ap (λ q. is_dirty (transfers sender receiver amount overdraw) q k) at
Returned-is_dirty (compares id amount threshold) p k (result, at) =
    ap (λ q. is_dirty (compares id amount threshold) q k) at

-- When all have returned, there is an order of the calls in which they have these results and lead to these
-- balances.
pub serializable :
    (n : ℕ) (call : ℕ → Call) (b : Bank) (s : System)
    → AllFree b
    → Reach n call b s
    → ((i : ℕ) → i < n → Returned (s.pc i))
    → (order : List ℕ) × Distinct call (ledger_of b) n order
      × ((i : ℕ) → i < n → outcome (s.pc i) ≡ result_in call (ledger_of b) order i)
      × ((k : ℤ) → ledger_of s.bank k ≡ ledger_after call (ledger_of b) order k)
serializable n call b s free reach all =
    let serial = Reach-Serial n call b s free reach in
    (
      serial.order,
      serial.distinct,
      serial.results,
      λ k. serial.agrees k (λ i lt. Returned-is_dirty (call i) (s.pc i) k (all i lt)),
    )
