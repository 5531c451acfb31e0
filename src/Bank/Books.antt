-- ===== src/Bank/Books.antt =====
-- bank.go: a call that is made while no lock is held does what it does to the ledger.
use cs_350_boston_u.Base.{
  ◌≡◌, ◌||◌, sym, ap, ◌∙◌, Bool, true, false, some, none, Option, Outcome, returns, panics, blocks,
  arith, Returns, Returns-map, Returns->>=, ◌>>=◌, Bool-cases, Option-cases, inl, inr,
}
use cs_350_boston_u.Base.Int.{ℤ, pos, leb_ℤ, eqb_ℤ}
use cs_350_boston_u.Base.Word.{add_int, sub_int}
use cs_350_boston_u.Bank.{Account, Bank, deposit, transfer, transfer_locked, deposit_and_compare}
use cs_350_boston_u.Bank.Locks.{Call, deposits, transfers, compares, AllFree}
use cs_350_boston_u.Bank.Transfers.{open_account, moved, transfer_moves, transfer_refuses}
use cs_350_boston_u.Bank.Ledger.{Ledger, ledger_of, balance_in, enter, book}
use cs_350_boston_u.Bank.Threads.Bookings.{book-transfers, book-transfers_short}

-- A call with its result; `Deposit` has none.
abbrev pub make_call : Call → Bank → Outcome (Bank × Option Bool)
make_call (deposits id amount) b = do b' ← deposit id amount b; returns (b', none)
make_call (transfers sender receiver amount overdraw) b = do
  (b', success) ← transfer sender receiver amount overdraw b
  returns (b', some success)
make_call (compares id amount threshold) b = do
  (b', above) ← deposit_and_compare id amount threshold b
  returns (b', some above)

Returns-every :
    {K A : Type 0} (P : K → A → Type 0) (any : K) (o : Outcome A)
    → ((k : K) → Returns (P k) o)
    → Returns (λ a. (k : K) → P k a) o
Returns-every P any (returns a) h = h
Returns-every P any panics h = elim (h any) [ ]
Returns-every P any blocks h = elim (h any) [ ]

-- One account after a call.
abbrev BookedAt : Call → Bank → ℤ × Account → Bank × Option Bool → Type 0
BookedAt c b (k, a) (b', result) =
    (b'.bank_locked ≡ false)
    × (b'.accounts k ≡ some a → a.locked ≡ false)
    × (ledger_of b' k ≡ (book c (ledger_of b)).0 k)
    × (result ≡ (book c (ledger_of b)).1)

deposit_at :
    (id amount : ℤ) (b : Bank) (k : ℤ) (a : Account)
    → AllFree b
    → Returns (BookedAt (deposits id amount) b (k, a)) (make_call (deposits id amount) b)
unfolding deposit book
deposit_at id amount b k a free = elim (Option-cases (b.accounts id)) [
  | inl missing ↦ ground (arith, missing, free.1 k a)
  | inr (own, has) ↦ ground (arith, has, free.1 k a, free.1 id own has)
]

compare_at :
    (id amount threshold : ℤ) (b : Bank) (k : ℤ) (a : Account)
    → AllFree b
    → Returns
        (BookedAt (compares id amount threshold) b (k, a))
        (make_call (compares id amount threshold) b)
unfolding deposit_and_compare book
compare_at id amount threshold b k a free = elim (Option-cases (b.accounts id)) [
  | inl missing ↦ ground (arith, missing, free.1 k a)
  | inr (own, has) ↦ ground (arith, has, free.1 k a, free.1 id own has)
]

module _ (sender receiver amount : ℤ) (overdraw : Bool) (b : Bank) (k : ℤ) (a : Account)
    (free : AllFree b) (differ : eqb_ℤ sender receiver ≡ false) (s r : Account)
    (has_s : b.accounts sender ≡ some s) (has_r : b.accounts receiver ≡ some r) where
  is_open :
      (id : ℤ) (own : Account) → b.accounts id ≡ some own → b.accounts id ≡ open_account own.balance
  is_open id own has = ground (arith, has, free.1 id own has)

  moved_free : moved sender receiver amount s.balance r.balance b k ≡ some a → a.locked ≡ false
  moved_free there = ground (arith, there, free.1 k a)

  moved_ledger :
      balance_in (moved sender receiver amount s.balance r.balance b k)
      ≡ enter receiver
          (add_int r.balance amount)
          (enter sender (sub_int s.balance amount) (ledger_of b))
          k
  moved_ledger = ground (arith, differ)

  transfer_moves_at :
      (leb_ℤ amount s.balance || overdraw) ≡ true
      → Returns
          (BookedAt (transfers sender receiver amount overdraw) b (k, a))
          (make_call (transfers sender receiver amount overdraw) b)
  transfer_moves_at may =
      let e =
        book-transfers sender receiver amount overdraw b (ledger_of b) differ s.balance r.balance
          (ap balance_in has_s) (ap balance_in has_r) may in
      Returns->>= _ (BookedAt (transfers sender receiver amount overdraw) b (k, a))
        (transfer sender receiver amount overdraw b) _
        (transfer_moves sender receiver amount s.balance r.balance overdraw b k free.0 differ
          (is_open sender s has_s) (is_open receiver r has_r) may)
        (λ o (success, unlocked, at). (
          unlocked,
          (λ there. moved_free (sym at ∙ there)),
          ap balance_in at ∙ moved_ledger ∙ ap (λ (x : Ledger × Option Bool). x.0 k) (sym e),
          ap some success ∙ ap (λ (x : Ledger × Option Bool). x.1) (sym e),
        ))

module _ (sender receiver amount : ℤ) (b : Bank) (k : ℤ) (a : Account) (free : AllFree b)
    (differ : eqb_ℤ sender receiver ≡ false) (s r : Account) (has_s : b.accounts sender ≡ some s)
    (has_r : b.accounts receiver ≡ some r) where
  transfer_open_at :
      (overdraw : Bool)
      → Returns
          (BookedAt (transfers sender receiver amount overdraw) b (k, a))
          (make_call (transfers sender receiver amount overdraw) b)
  transfer_open_at true =
      transfer_moves_at sender receiver amount true b k a free differ s r has_s has_r (ground arith)
  transfer_open_at false = elim (Bool-cases (leb_ℤ amount s.balance)) [
    | inl enough ↦
        transfer_moves_at sender receiver amount false b k a free differ s r has_s has_r
          (ground (arith, enough))
    | inr short ↦
        let e =
          book-transfers_short sender receiver amount false b (ledger_of b) differ s.balance
            r.balance (ap balance_in has_s) (ap balance_in has_r) (ground (arith, short)) in
        Returns->>= _ (BookedAt (transfers sender receiver amount false) b (k, a))
          (transfer sender receiver amount false b) _
          (transfer_refuses sender receiver amount s.balance r.balance b k free.0 differ
            (is_open sender receiver amount false b k a free differ s r has_s has_r sender s has_s)
            (is_open sender receiver amount false b k a free differ s r has_s has_r receiver r
              has_r)
            short)
          (λ o (success, unlocked, at). (
            unlocked,
            (λ there. free.1 k a (sym at ∙ there)),
            ap balance_in at ∙ ap (λ (x : Ledger × Option Bool). x.0 k) (sym e),
            ap some success ∙ ap (λ (x : Ledger × Option Bool). x.1) (sym e),
          ))
  ]

transfer_at :
    (sender receiver amount : ℤ) (overdraw : Bool) (b : Bank) (k : ℤ) (a : Account)
    → AllFree b
    → Returns
        (BookedAt (transfers sender receiver amount overdraw) b (k, a))
        (make_call (transfers sender receiver amount overdraw) b)
unfolding transfer transfer_locked book
transfer_at sender receiver amount overdraw b k a free = elim (Bool-cases (eqb_ℤ sender receiver)) [
  | inl same ↦ ground (arith, same, free.1 k a)
  | inr differ ↦ elim (Option-cases (b.accounts sender)) [
    | inl missing ↦ ground (arith, differ, missing, free.1 k a)
    | inr (s, has_s) ↦ elim (Option-cases (b.accounts receiver)) [
      | inl missing ↦ ground (arith, differ, has_s, missing, free.1 k a)
      | inr (r, has_r) ↦
          transfer_open_at sender receiver amount b k a free differ s r has_s has_r overdraw
    ]
  ]
]

any : Account
any = record { balance = pos 0; locked = false }

call_at :
    (c : Call) (b : Bank) (k : ℤ) (a : Account)
    → AllFree b
    → Returns (BookedAt c b (k, a)) (make_call c b)
call_at (deposits id amount) b k a free = deposit_at id amount b k a free
call_at (transfers sender receiver amount overdraw) b k a free =
    transfer_at sender receiver amount overdraw b k a free
call_at (compares id amount threshold) b k a free = compare_at id amount threshold b k a free

-- With no lock held, a call returns and does what it does to the ledger, and leaves no lock held.
abbrev pub Booked : Call → Bank → Bank × Option Bool → Type 0
Booked c b (b', result) =
    AllFree b'
    × ((k : ℤ) → ledger_of b' k ≡ (book c (ledger_of b)).0 k)
    × (result ≡ (book c (ledger_of b)).1)

pub make_call-Booked : (c : Call) (b : Bank) → AllFree b → Returns (Booked c b) (make_call c b)
make_call-Booked c b free =
    Returns-map {A = Bank × Option Bool} (make_call c b)
      (λ o h.
        (((h (pos 0, any)).0, λ k a. (h (k, a)).1), (λ k. (h (k, any)).2), (h (pos 0, any)).3))
      (Returns-every (BookedAt c b) (pos 0, any) (make_call c b) (λ (k, a). call_at c b k a free))
