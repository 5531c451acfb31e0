-- ===== src/Bank/Threads/Bookings.antt =====
-- bank.go under concurrent calls: the statements that change a balance, and how their calls are booked.
use cs_350_boston_u.Base.{
  ◌≡◌, ◌⊎◌, refl, sym, ap, ◌∙◌, Bool, true, false, ◌||◌, Option, none, some, Bool-cases, inl, inr,
  arith,
}
use cs_350_boston_u.Base.Int.{ℤ, pos, eqb_ℤ, eqb→eq, leb_ℤ, ltb_ℤ}
use cs_350_boston_u.Base.Word.{add_int, sub_int}
use cs_350_boston_u.Bank.{Account, Bank, put}
use cs_350_boston_u.Bank.Locks.{deposits, transfers, compares}
use cs_350_boston_u.Bank.Ledger.{Ledger, ledger_of, enter, is_entered, book}
use cs_350_boston_u.Bank.Threads.{entered, computed, credited, approved, debited, leaving}
use cs_350_boston_u.Bank.Threads.Changes.{Rest, Agrees, ledger_of-balance}

pub self : (id : ℤ) → eqb_ℤ id id ≡ true
self id = ground arith

-- At an account that is entered, and elsewhere.
entered_cases :
    (id k : ℤ) (balance : ℤ) (v : Ledger)
    → ((eqb_ℤ id k ≡ true) × (id ≡ k) × (enter id balance v k ≡ some balance))
      ⊎ ((eqb_ℤ id k ≡ false) × (enter id balance v k ≡ v k))
entered_cases id k balance v = elim (Bool-cases (eqb_ℤ id k)) [
  | inl at ↦ inl (at, eqb→eq id k at, rw at refl)
  | inr off ↦ inr (off, rw off refl)
]

entries-enter :
    (id x balance : ℤ) (v : Ledger) (k : ℤ)
    → v id ≡ some x
    → is_entered (enter id balance v k) ≡ is_entered (v k)
entries-enter id x balance v k there = elim (entered_cases id k balance v) [
  | inl (at, e, value) ↦ ap is_entered value ∙ sym (ap is_entered (ap v (sym e) ∙ there))
  | inr (off, value) ↦ ap is_entered value
]

module _ (id amount : ℤ) (b : Bank) (v : Ledger) where
  pub book-deposits :
      (x : ℤ) → v id ≡ some x → book (deposits id amount) v ≡ (enter id (add_int x amount) v, none)
  unfolding book
  book-deposits x there = ground (arith, there)

  pub deposits_write :
      (new_balance x : ℤ) (a : Account)
      → v id ≡ some x
      → new_balance ≡ add_int x amount
      → Rest
          (deposits id amount)
          (computed new_balance)
          b
          v
          (leaving none)
          (put id (record a { balance = new_balance }) b)
          (enter id (add_int x amount) v)
  deposits_write new_balance x a there new = record {
    others = λ k h. (ledger_of-balance id a new_balance b k ∙ ground (arith, h), ground (arith, h));
    agrees = λ k h d. ledger_of-balance id a new_balance b k ∙ ground (arith, h, new);
    local = tt;
    entries = λ k. entries-enter id x (add_int x amount) v k there;
  }

module _ (id amount threshold : ℤ) (b : Bank) (v : Ledger) where
  pub book-compares :
      (x : ℤ)
      → v id ≡ some x
      → ltb_ℤ (pos 0) amount ≡ true
      → book (compares id amount threshold) v
        ≡ (enter id (add_int x amount) v, some (leb_ℤ threshold (add_int x amount)))
  unfolding book
  book-compares x there goes = ground (arith, there, goes)

  pub compares_write :
      (x : ℤ) (a : Account)
      → v id ≡ some x
      → Rest
          (compares id amount threshold)
          entered
          b
          v
          credited
          (put id (record a { balance = add_int x amount }) b)
          v
  compares_write x a there = record {
    others = λ k h. (ledger_of-balance id a (add_int x amount) b k ∙ ground (arith, h), refl);
    agrees = λ k h d. absurd (ground (arith, h, d));
    local = (x, there, ledger_of-balance id a (add_int x amount) b id ∙ ground (arith, self id));
    entries = λ k. refl;
  }

  pub compares_done :
      (x : ℤ) (result : Option Bool)
      → v id ≡ some x
      → ledger_of b id ≡ some (add_int x amount)
      → Rest
          (compares id amount threshold)
          credited
          b
          v
          (leaving result)
          b
          (enter id (add_int x amount) v)
  compares_done x result there has = record {
    others = λ k h. (refl, ground (arith, h));
    agrees = λ k h d. elim (entered_cases id k (add_int x amount) v) [
      | inl (at, e, value) ↦ ap (ledger_of b) (sym e) ∙ has ∙ sym value
      | inr (off, value) ↦ absurd (ground (arith, h, off))
    ];
    local = tt;
    entries = λ k. entries-enter id x (add_int x amount) v k there;
  }

module _ (sender receiver amount : ℤ) (overdraw : Bool) (b : Bank) (v : Ledger)
    (differ : eqb_ℤ sender receiver ≡ false) (x y : ℤ) (has_s : v sender ≡ some x)
    (has_r : v receiver ≡ some y) where
  pub book-transfers :
      (leb_ℤ amount x || overdraw) ≡ true
      → book (transfers sender receiver amount overdraw) v
        ≡ (enter receiver (add_int y amount) (enter sender (sub_int x amount) v), some true)
  unfolding book
  book-transfers may = rw (differ, has_s, has_r) (rw may refl)

  pub book-transfers_short :
      (leb_ℤ amount x || overdraw) ≡ false
      → book (transfers sender receiver amount overdraw) v ≡ (v, some false)
  unfolding book
  book-transfers_short short = rw (differ, has_s, has_r) (rw short refl)

  -- The sender pays.
  pub transfers_debit :
      (a : Account)
      → (leb_ℤ amount x || overdraw) ≡ true
      → Agrees (transfers sender receiver amount overdraw) approved b v
      → Rest
          (transfers sender receiver amount overdraw)
          approved
          b
          v
          debited
          (put sender (record a { balance = sub_int x amount }) b)
          v
  transfers_debit a may agree = record {
    others = λ k h. (ledger_of-balance sender a (sub_int x amount) b k ∙ ground (arith, h), refl);
    agrees = λ k h d.
        ledger_of-balance sender a (sub_int x amount) b k ∙ ground (arith, d, agree k h refl);
    local = (
      x,
      has_s,
      may,
      ledger_of-balance sender a (sub_int x amount) b sender ∙ ground (arith, self sender),
    );
    entries = λ k. refl;
  }

  -- The receiver is paid.
  pub transfers_credit :
      (a : Account)
      → ledger_of b sender ≡ some (sub_int x amount)
      → Rest
          (transfers sender receiver amount overdraw)
          debited
          b
          v
          (leaving (some true))
          (put receiver (record a { balance = add_int y amount }) b)
          (enter receiver (add_int y amount) (enter sender (sub_int x amount) v))
  transfers_credit a paid = record {
    others = λ k h. (
      ledger_of-balance receiver a (add_int y amount) b k ∙ ground (arith, h),
      ground (arith, h),
    );
    agrees = λ k h d.
        ledger_of-balance receiver a (add_int y amount) b k
        ∙ elim (entered_cases receiver k (add_int y amount) (enter sender (sub_int x amount) v)) [
          | inl (at, e, value) ↦ ground (arith, at)
          | inr (off, value) ↦ elim (entered_cases sender k (sub_int x amount) v) [
            | inl (at, e, value') ↦
                ground (arith, off) ∙ ap (ledger_of b) (sym e) ∙ paid ∙ sym value' ∙ sym value
            | inr (off', value') ↦ absurd (ground (arith, h, off, off'))
          ]
        ];
    local = tt;
    entries = λ k.
        entries-enter receiver y (add_int y amount) (enter sender (sub_int x amount) v) k
          (ground (arith, differ, has_r))
        ∙ entries-enter sender x (sub_int x amount) v k has_s;
  }
