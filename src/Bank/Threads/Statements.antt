-- ===== src/Bank/Threads/Statements.antt =====
-- bank.go under concurrent calls: every statement keeps the balances with a ledger, and a call is booked when
-- its result is known.
use cs_350_boston_u.Base.{
  ◌≡◌, refl, sym, subst, ap, ◌∙◌, true, false, ◌||◌, none, some, Bool-cases, inl, inr,
  if◌then◌else◌, returns, Ensures, Ensures->>=, arith,
}
use cs_350_boston_u.Base.Int.{ℤ, eqb_ℤ, leb_ℤ}
use cs_350_boston_u.Base.Word.{add_int, sub_int}
use cs_350_boston_u.Bank.{Account, Bank, has_account, account_at}
use cs_350_boston_u.Bank.Locks.{Call, deposits, transfers, compares}
use cs_350_boston_u.Bank.Ledger.{Ledger, ledger_of, balance_in, enter, is_entered, book}
use cs_350_boston_u.Bank.Threads.{
  Pc, begins, in_bank, wants_first, wants_second, entered, computed, credited, approved, debited,
  leaving, left_second, returned, is_transfer, first_of, second_of, is_idle, goes_on, refusal,
  next_inside, next, holds,
}
use cs_350_boston_u.Bank.Threads.Mutexes.{
  account_at-returns, Ensures-lock_bank, Ensures-unlock_bank, Ensures-lock_account,
  Ensures-unlock_account, Ensures-set_balance,
}
use cs_350_boston_u.Bank.Threads.Effects.{fits, past}
use cs_350_boston_u.Bank.Threads.Changes.{
  outcome, is_dirty, Local, Change, quiet, Changes, Agrees, quiet-Rest, ledger_of-locked, booked,
}
use cs_350_boston_u.Bank.Threads.Bookings.{
  self, book-deposits, deposits_write, book-compares, compares_write, compares_done, book-transfers,
  book-transfers_short, transfers_debit, transfers_credit,
}
use cs_350_boston_u.Bank.Threads.Refusals.{
  is_plain, plain_clean, plain-Local, sender_held, receiver_held, entry, refused, idle_refused,
}

module _ (b : Bank) (v : Ledger) (entries : (k : ℤ) → is_entered (v k) ≡ has_account k b) where
  -- The balance that a statement reads.
  reads :
      (c : Call) (p : Pc) (id : ℤ) (a : Account)
      → Agrees c p b v
      → holds c p id ≡ true
      → is_dirty c p id ≡ false
      → account_at id b ≡ returns a
      → v id ≡ some a.balance
  reads c p id a agree held clean run =
      sym (agree id held clean) ∙ ap balance_in (account_at-returns b id a run)

  next_inside-Changes :
      (c : Call) (p : Pc)
      → fits c p ≡ true
      → (past p ≡ true → goes_on c b ≡ true)
      → Local c p v b
      → Agrees c p b v
      → Ensures (Changes c p b v) (next_inside c p b)
  unfolding next_inside
  next_inside-Changes (deposits id amount) entered fit goes here agree =
      Ensures->>= _ (account_at id b) _ (λ a run. quiet refl (
        quiet-Rest (deposits id amount) entered b v (computed (add_int a.balance amount)) b agree
          (λ k. refl) (λ k. refl)
          (
            a.balance,
            reads (deposits id amount) entered id a agree (ground (arith, self id)) refl run,
            refl,
          )))
  next_inside-Changes (deposits id amount) (computed new_balance) fit goes (x, there, new) agree =
      Ensures-set_balance (Changes (deposits id amount) (computed new_balance) b v) b id new_balance
        _
        (λ a has.
          booked (deposits id amount) (computed new_balance) b v _ _ (enter id (add_int x amount) v)
            none refl refl (book-deposits id amount b v x there)
            (deposits_write id amount b v new_balance x a there new))
  next_inside-Changes (compares id amount threshold) entered fit goes here agree =
      Ensures->>= _ (account_at id b) _ (λ a run.
        Ensures-set_balance (Changes (compares id amount threshold) entered b v) b id
          (add_int a.balance amount) _
          (λ a' has. quiet refl (
            compares_write id amount threshold b v a.balance a' (
              reads (compares id amount threshold) entered id a agree (ground (arith, self id)) refl
                run))))
  next_inside-Changes (compares id amount threshold) credited fit goes (x, there, has) agree =
      Ensures->>= _ (account_at id b) _ (λ a run.
        let e : a.balance ≡ add_int x amount =
          cc (ap balance_in (account_at-returns b id a run), has) in
        booked (compares id amount threshold) credited b v _ b (enter id (add_int x amount) v)
          (some (leb_ℤ threshold (add_int x amount))) refl
          (ap (λ t. some (some (leb_ℤ threshold t))) e)
          (book-compares id amount threshold b v x there (ground (arith, goes refl)))
          (compares_done id amount threshold b v x _ there has))
  next_inside-Changes (transfers sender receiver amount overdraw) entered fit goes here agree =
      let c = transfers sender receiver amount overdraw in
      let differ : eqb_ℤ sender receiver ≡ false = ground (arith, fit) in
      let (y, has_r) = entry b v entries receiver (ground (arith, goes refl)) in
      Ensures->>= _ (account_at sender b) _ (λ a run.
        let has_s =
          reads c entered sender a agree (sender_held sender receiver amount overdraw) refl run in
        elim (Bool-cases (leb_ℤ amount a.balance || overdraw)) [
          | inl may ↦ rw may (
              quiet refl (
                quiet-Rest c entered b v approved b agree (λ k. refl) (λ k. refl)
                  (a.balance, has_s, may)))
          | inr short ↦ rw short (
              booked c entered b v (leaving (some false)) b v (some false) refl refl
                (book-transfers_short sender receiver amount overdraw b v differ a.balance y has_s
                  has_r short)
                (quiet-Rest c entered b v (leaving (some false)) b agree (λ k. refl) (λ k. refl)
                  tt))
        ])
  next_inside-Changes (transfers sender receiver amount overdraw) approved fit goes (x, there, may)
        agree =
      let c = transfers sender receiver amount overdraw in
      let differ : eqb_ℤ sender receiver ≡ false = ground (arith, fit) in
      let (y, has_r) = entry b v entries receiver (ground (arith, goes refl)) in
      Ensures->>= _ (account_at sender b) _ (λ a run.
        let has_s =
          reads c approved sender a agree (sender_held sender receiver amount overdraw) refl run in
        let e : x ≡ a.balance = cc (there, has_s) in
        Ensures-set_balance (Changes c approved b v) b sender (sub_int a.balance amount) _
          (λ a' has. quiet refl (
            transfers_debit sender receiver amount overdraw b v differ a.balance y has_s has_r a'
              (subst (λ t. (leb_ℤ amount t || overdraw) ≡ true) e may) agree)))
  next_inside-Changes (transfers sender receiver amount overdraw) debited fit goes
        (x, there, may, paid) agree =
      let c = transfers sender receiver amount overdraw in
      let differ : eqb_ℤ sender receiver ≡ false = ground (arith, fit) in
      Ensures->>= _ (account_at receiver b) _ (λ a run.
        let has_r =
          reads c debited receiver a agree (receiver_held sender receiver amount overdraw) differ
            run in
        Ensures-set_balance (Changes c debited b v) b receiver (add_int a.balance amount) _
          (λ a' has.
            booked c debited b v _ _ _ (some true) refl refl
              (book-transfers sender receiver amount overdraw b v differ x a.balance there has_r
                may)
              (transfers_credit sender receiver amount overdraw b v differ x a.balance there has_r
                a' paid)))
  next_inside-Changes c p fit goes here agree = tt

  -- A step from one place without local variables to another.
  plain_step :
      (c : Call) (p p' : Pc) (b' : Bank)
      → is_plain p ≡ true
      → is_plain p' ≡ true
      → outcome p' ≡ outcome p
      → Agrees c p b v
      → ((k : ℤ) → ledger_of b' k ≡ ledger_of b k)
      → Change c p b v p' b'
  plain_step c p p' b' from to same agree ledger = quiet same (
      quiet-Rest c p b v p' b' agree ledger (λ k. plain_clean c p k from)
        (plain-Local c p' v b' to))

  plain_refusal :
      (c : Call) (p : Pc) (b' : Bank)
      → is_plain p ≡ true
      → outcome p ≡ none
      → book c v ≡ (v, refusal c)
      → Agrees c p b v
      → ((k : ℤ) → ledger_of b' k ≡ ledger_of b k)
      → Change c p b v (returned (refusal c)) b'
  plain_refusal c p b' from before e agree ledger =
      booked c p b v (returned (refusal c)) b' v (refusal c) before refl e (
        quiet-Rest c p b v (returned (refusal c)) b' agree ledger (λ k. plain_clean c p k from)
          (plain-Local c (returned (refusal c)) v b' refl))

  pub next-Changes :
      (c : Call) (p : Pc)
      → fits c p ≡ true
      → (past p ≡ true → goes_on c b ≡ true)
      → Local c p v b
      → Agrees c p b v
      → Ensures (Changes c p b v) (next c p b)
  unfolding next
  next-Changes c begins fit goes here agree = elim (Bool-cases (is_idle c)) [
    | inl idle ↦
        rw idle
          (plain_refusal c begins b refl refl (idle_refused b v entries c idle) agree (λ k. refl))
    | inr busy ↦ rw busy (
        Ensures-lock_bank (Changes c begins b v) b _
          (λ free. plain_step c begins in_bank _ refl refl refl agree (λ k. refl)))
  ]
  next-Changes c in_bank fit goes here agree =
      Ensures-unlock_bank (Changes c in_bank b v) b _ (λ held. elim (Bool-cases (goes_on c b)) [
        | inl on ↦ rw on (plain_step c in_bank wants_first _ refl refl refl agree (λ k. refl))
        | inr off ↦
            rw off
              (plain_refusal c in_bank _ refl refl (refused b v entries c off) agree (λ k. refl))
      ])
  next-Changes c wants_first fit goes here agree =
      Ensures-lock_account (Changes c wants_first b v) b (first_of c) _ (λ a has free.
        plain_step c wants_first (if is_transfer c then wants_second else entered) _ refl
          (ground arith) (ground arith) agree (λ k. ledger_of-locked (first_of c) a true b k has))
  next-Changes c wants_second fit goes here agree =
      Ensures-lock_account (Changes c wants_second b v) b (second_of c) _ (λ a has free.
        plain_step c wants_second entered _ refl refl refl agree
          (λ k. ledger_of-locked (second_of c) a true b k has))
  next-Changes c (leaving result) fit goes here agree =
      Ensures-unlock_account (Changes c (leaving result) b v) b (second_of c) _ (λ a has.
        plain_step c (leaving result)
          (if is_transfer c then left_second result else returned result) _ refl (ground arith)
          (ground arith) agree (λ k. ledger_of-locked (second_of c) a false b k has))
  next-Changes c (left_second result) fit goes here agree =
      Ensures-unlock_account (Changes c (left_second result) b v) b (first_of c) _ (λ a has.
        plain_step c (left_second result) (returned result) _ refl refl refl agree
          (λ k. ledger_of-locked (first_of c) a false b k has))
  next-Changes c (returned result) fit goes here agree = tt
  next-Changes c p fit goes here agree = next_inside-Changes c p fit goes here agree
