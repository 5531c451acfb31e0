-- ===== src/Bank/Threads/Refusals.antt =====
-- bank.go under concurrent calls: the calls that find no account or do not test it, and the places without
-- local variables.
use cs_350_boston_u.Base.{◌≡◌, refl, Bool, true, false, Option-cases, none, some, inl, inr, arith}
use cs_350_boston_u.Base.Int.{ℤ}
use cs_350_boston_u.Bank.{Bank, has_account}
use cs_350_boston_u.Bank.Locks.{Call, deposits, transfers, compares}
use cs_350_boston_u.Bank.Ledger.{Ledger, is_entered, book}
use cs_350_boston_u.Bank.Threads.{
  Pc, entered, computed, credited, approved, debited, is_idle, goes_on, refusal, holds,
}
use cs_350_boston_u.Bank.Threads.Changes.{is_dirty, Local}

-- Has a goroutine there no local variables, and nothing in between?
abbrev pub is_plain : Pc → Bool
is_plain (computed new_balance) = false
is_plain credited = false
is_plain approved = false
is_plain debited = false
is_plain p = true

pub plain_clean : (c : Call) (p : Pc) (k : ℤ) → is_plain p ≡ true → is_dirty c p k ≡ false
plain_clean (compares id amount threshold) credited k plain = cc
plain_clean (transfers sender receiver amount overdraw) debited k plain = cc
plain_clean c p k plain = refl

pub plain-Local : (c : Call) (p : Pc) (v : Ledger) (b : Bank) → is_plain p ≡ true → Local c p v b
plain-Local (deposits id amount) (computed new_balance) v b plain = absurd (cc)
plain-Local (compares id amount threshold) credited v b plain = absurd (cc)
plain-Local (transfers sender receiver amount overdraw) approved v b plain = absurd (cc)
plain-Local (transfers sender receiver amount overdraw) debited v b plain = absurd (cc)
plain-Local c p v b plain = tt

pub sender_held :
    (sender receiver amount : ℤ) (overdraw : Bool)
    → holds (transfers sender receiver amount overdraw) entered sender ≡ true
sender_held sender receiver amount overdraw = ground arith

pub receiver_held :
    (sender receiver amount : ℤ) (overdraw : Bool)
    → holds (transfers sender receiver amount overdraw) entered receiver ≡ true
receiver_held sender receiver amount overdraw = ground arith

module _ (b : Bank) (v : Ledger) (entries : (k : ℤ) → is_entered (v k) ≡ has_account k b) where
  pub entry : (id : ℤ) → has_account id b ≡ true → (x : ℤ) × (v id ≡ some x)
  entry id there = elim (Option-cases (v id)) [
    | inl missing ↦ absurd (ground (arith, entries id, there, missing))
    | inr found ↦ found
  ]

  no_entry : (id : ℤ) → has_account id b ≡ false → v id ≡ none
  no_entry id missing = elim (Option-cases (v id)) [
    | inl none_there ↦ none_there
    | inr (x, there) ↦ absurd (ground (arith, entries id, there, missing))
  ]

  pub refused : (c : Call) → goes_on c b ≡ false → book c v ≡ (v, refusal c)
  unfolding book
  refused (deposits id amount) stops = ground (arith, no_entry id stops)
  refused (compares id amount threshold) stops = elim (Option-cases (v id)) [
    | inl missing ↦ ground (arith, missing)
    | inr (x, there) ↦ ground (arith, there, entries id, stops)
  ]
  refused (transfers sender receiver amount overdraw) stops = elim (Option-cases (v sender)) [
    | inl missing ↦ ground (arith, missing)
    | inr (x, there) ↦ elim (Option-cases (v receiver)) [
      | inl missing ↦ ground (arith, there, missing)
      | inr (y, there') ↦
          absurd (ground (arith, there, there', entries sender, entries receiver, stops))
    ]
  ]

  pub idle_refused : (c : Call) → is_idle c ≡ true → book c v ≡ (v, refusal c)
  unfolding book
  idle_refused (deposits id amount) idle = cc
  idle_refused (compares id amount threshold) idle = cc
  idle_refused (transfers sender receiver amount overdraw) idle = rw idle refl
