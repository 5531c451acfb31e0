-- ===== src/Bank/Threads/Tests.antt =====
-- Two transfers between the same accounts, in opposite directions, interleaved.
use cs_350_boston_u.Base.{
  ℕ, zero, suc, ◌<◌, ◌≤◌, ◌*◌, ◌≡◌, ◌⊎◌, refl, Bool, true, false, none, some, if◌then◌else◌, List,
  [], ◌∷◌, Outcome, returns, panics, blocks, Returns, arith,
}
use cs_350_boston_u.Base.Int.{ℤ, ◌+ℤ◌, pos, eqb_ℤ}
use cs_350_boston_u.Base.Word.{add_int}
use cs_350_boston_u.Bank.{Bank}
use cs_350_boston_u.Bank.Locks.{Call, transfers, AllFree}
use cs_350_boston_u.Bank.Threads.{Pc, next, System, moved_on, Reach, start, step}
use cs_350_boston_u.Bank.Ledger.{ledger_of}
use cs_350_boston_u.Bank.Threads.Changes.{outcome}
use cs_350_boston_u.Bank.Threads.Agreement.{IsOrder, make_calls, interleaving-make_calls}
use cs_350_boston_u.Bank.Threads.Moves.{one_holder}
use cs_350_boston_u.Bank.Threads.Progress.{SomeMoves}
use cs_350_boston_u.Bank.Threads.Ends.{steps, Returned, interleavings_end}

abbrev two_accounts : Bank
two_accounts = record {
  bank_locked = false;
  accounts = λ k.
      if eqb_ℤ (pos 1) k
      then some (record { balance = pos 100; locked = false })
      else if eqb_ℤ (pos 2) k
      then some (record { balance = pos 50; locked = false })
      else none;
}

two_accounts-AllFree : AllFree two_accounts
two_accounts-AllFree = (refl, λ k a has. ground (arith, has))

abbrev there_and_back : ℕ → Call
there_and_back zero = transfers (pos 1) (pos 2) (pos 30) false
there_and_back (suc i) = transfers (pos 2) (pos 1) (pos 10) false

record Run : Type 0 where
  last : System
  reach : Reach 2 there_and_back two_accounts last

advance :
    (r : Run) (i : ℕ)
    → i < 2
    → (o : Outcome (Bank × Pc)) → next (there_and_back i) (r.last.pc i) r.last.bank ≡ o
    → Run
advance r i lt (returns (b', p')) run = record {
  last = moved_on r.last i b' p';
  reach = step r.last i b' p' r.reach lt run;
}
advance r i lt panics run = r
advance r i lt blocks run = r

-- The goroutines take their turns in this order; true is goroutine 1.
schedule : List Bool → Run → Run
unfolding advance
schedule [] r = r
schedule (true ∷ turns) r =
    schedule turns
      (advance r 1 (omega arith) (next (there_and_back 1) (r.last.pc 1) r.last.bank) refl)
schedule (false ∷ turns) r =
    schedule turns
      (advance r 0 (omega arith) (next (there_and_back 0) (r.last.pc 0) r.last.bank) refl)

-- Both are past the bank's mutex; goroutine 0 has locked account 1, and goroutine 1 waits for it.
abbrev midway : Run
unfolding schedule next
midway =
    schedule (false ∷ false ∷ true ∷ false ∷ true ∷ false ∷ []) (record { last = _; reach = start })

one_holder_example : ◌≡◌ {A = ℕ} 0 0
unfolding midway
one_holder_example =
    one_holder 2 there_and_back two_accounts midway.last 0 0 (pos 1) two_accounts-AllFree
      midway.reach (omega arith) (omega arith) refl refl

interleavings_end_example :
    (steps midway.reach ≤ 9 * 2)
    × (SomeMoves 2 there_and_back midway.last
        ⊎ (((i : ℕ) → i < 2 → Returned (midway.last.pc i)) × AllFree midway.last.bank))
interleavings_end_example =
    interleavings_end 2 there_and_back two_accounts midway.last midway.reach two_accounts-AllFree

-- Goroutine 0 returns, then goroutine 1.
abbrev finished : Run
unfolding midway schedule next
finished =
    schedule
      (false ∷ false ∷ false ∷ false ∷ false ∷ true ∷ true ∷ true ∷ true ∷ true ∷ true ∷ true ∷ true
        ∷ [])
      midway

finished-Returned : (i : ℕ) → i < 2 → Returned (finished.last.pc i)
unfolding finished add_int ◌+ℤ◌
finished-Returned zero lt = (some true, refl)
finished-Returned (suc zero) lt = (some true, refl)
finished-Returned (suc (suc i)) lt = absurd (omega arith)

interleaving-make_calls_example :
    (order : List ℕ) × IsOrder 2 order
    × Returns
        (λ o.
          ((k : ℤ) → ledger_of finished.last.bank k ≡ ledger_of o.0 k)
          × ((i : ℕ) → i < 2 → outcome (finished.last.pc i) ≡ o.1 i))
        (make_calls there_and_back order two_accounts)
interleaving-make_calls_example =
    interleaving-make_calls 2 there_and_back two_accounts finished.last two_accounts-AllFree
      finished.reach finished-Returned
