-- ===== src/Bank/Threads/Effects.antt =====
-- bank.go under concurrent calls: what a statement does to the mutexes and the balances.
use cs_350_boston_u.Base.{
  ◌≡◌, ◌⊎◌, refl, Bool, true, false, not, ◌&&◌, ◌||◌, Option, some, Bool-cases, inl, inr,
  if◌then◌else◌, Ensures, Ensures->>=, arith,
}
use cs_350_boston_u.Base.Int.{ℤ, leb_ℤ, eqb_ℤ}
use cs_350_boston_u.Base.Word.{add_int, sub_int}
use cs_350_boston_u.Bank.{Account, Bank, put, account_at}
use cs_350_boston_u.Bank.Locks.{Call, deposits, transfers, compares}
use cs_350_boston_u.Bank.Threads.{
  Pc, begins, in_bank, wants_first, wants_second, entered, computed, credited, approved, debited,
  leaving, left_second, returned, is_transfer, first_of, second_of, is_idle, goes_on, next_inside,
  next, holds, is_in_bank,
}
use cs_350_boston_u.Bank.Threads.Mutexes.{
  Ensures-lock_bank, Ensures-unlock_bank, Ensures-lock_account, Ensures-unlock_account,
  Ensures-set_balance,
}

abbrev is_deposit : Call → Bool
is_deposit (deposits id amount) = true
is_deposit _ = false

abbrev is_compare : Call → Bool
is_compare (compares id amount threshold) = true
is_compare _ = false

-- May a goroutine with this call stand there?
abbrev pub fits : Call → Pc → Bool
fits c begins = true
fits c (returned result) = true
fits c (computed new_balance) = is_deposit c
fits c credited = is_compare c
fits c wants_second = is_transfer c && not (is_idle c)
fits c approved = is_transfer c && not (is_idle c)
fits c debited = is_transfer c && not (is_idle c)
fits c (left_second result) = is_transfer c && not (is_idle c)
fits c p = not (is_idle c)

-- Is the goroutine past the section of the bank's mutex?
abbrev pub past : Pc → Bool
past begins = false
past in_bank = false
past (returned result) = false
past p = true

module _ (c : Call) (p : Pc) (b : Bank) (p' : Pc) (b' : Bank) where
  -- The goroutine holds the mutexes of the same accounts as before.
  abbrev Same : Type 0
  Same = (k : ℤ) → holds c p' k ≡ holds c p k

  abbrev Outside : Type 0
  Outside = (is_in_bank p ≡ false) × (is_in_bank p' ≡ false)

  pub data Effect : Type 0 where
    takes_bank :
        b.bank_locked ≡ false
        → b' ≡ record b { bank_locked = true }
        → is_in_bank p ≡ false
        → is_in_bank p' ≡ true
        → Same
        → Effect
    gives_bank :
        b.bank_locked ≡ true
        → b' ≡ record b { bank_locked = false }
        → is_in_bank p ≡ true
        → is_in_bank p' ≡ false
        → Same
        → Effect
    takes :
        (id : ℤ) (a : Account)
        → b.accounts id ≡ some a
        → a.locked ≡ false
        → b' ≡ put id (record a { locked = true }) b
        → Outside
        → ((k : ℤ) → holds c p' k ≡ (holds c p k || eqb_ℤ id k))
        → Effect
    gives :
        (id : ℤ) (a : Account)
        → b.accounts id ≡ some a
        → holds c p id ≡ true
        → b' ≡ put id (record a { locked = false }) b
        → Outside
        → ((k : ℤ) → holds c p' k ≡ (holds c p k && not (eqb_ℤ id k)))
        → Effect
    writes :
        (id : ℤ) (a : Account) (balance : ℤ)
        → b.accounts id ≡ some a
        → holds c p id ≡ true
        → b' ≡ put id (record a { balance = balance }) b
        → Outside
        → Same
        → Effect
    stays : b' ≡ b → Outside → Same → Effect

-- A statement has an effect, the goroutine stands where its call may stand, and it goes past the bank's
-- mutex only if it goes on.
abbrev pub Results : Call → Pc → Bank → Bank × Pc → Type 0
Results c p b (b', p') =
    Effect c p b p' b'
    × (fits c p' ≡ true)
    × (past p' ≡ true → (past p ≡ true) ⊎ (goes_on c b ≡ true))

next_inside-Results :
    (c : Call) (p : Pc) (b : Bank) → fits c p ≡ true → Ensures (Results c p b) (next_inside c p b)
unfolding next_inside
next_inside-Results (deposits id amount) entered b fit =
    Ensures->>= _ (account_at id b) _
      (λ a has. (stays refl (refl, refl) (λ k. refl), refl, λ h. inl refl))
next_inside-Results (deposits id amount) (computed new_balance) b fit =
    Ensures-set_balance (Results (deposits id amount) (computed new_balance) b) b id new_balance _
      (λ a has. (
        writes id a new_balance has (ground arith) refl (refl, refl) (λ k. refl),
        refl,
        λ h. inl refl,
      ))
next_inside-Results (compares id amount threshold) entered b fit =
    Ensures->>= _ (account_at id b) _ (λ a has.
      Ensures-set_balance (Results (compares id amount threshold) entered b) b id
        (add_int a.balance amount) _
        (λ a' has'.
          (writes id a' _ has' (ground arith) refl (refl, refl) (λ k. refl), refl, λ h. inl refl)))
next_inside-Results (compares id amount threshold) credited b fit =
    Ensures->>= _ (account_at id b) _
      (λ a has. (stays refl (refl, refl) (λ k. refl), refl, λ h. inl refl))
next_inside-Results (transfers sender receiver amount overdraw) entered b fit =
    Ensures->>= _ (account_at sender b) _ (λ a has.
      elim (Bool-cases (leb_ℤ amount a.balance || overdraw)) [
        | inl may ↦ rw may (stays refl (refl, refl) (λ k. refl), fit, λ h. inl refl)
        | inr short ↦ rw short (stays refl (refl, refl) (λ k. refl), fit, λ h. inl refl)
      ])
next_inside-Results (transfers sender receiver amount overdraw) approved b fit =
    Ensures->>= _ (account_at sender b) _ (λ a has.
      Ensures-set_balance (Results (transfers sender receiver amount overdraw) approved b) b sender
        (sub_int a.balance amount) _
        (λ a' has'. (
          writes sender a' _ has' (ground arith) refl (refl, refl) (λ k. refl),
          fit,
          λ h. inl refl,
        )))
next_inside-Results (transfers sender receiver amount overdraw) debited b fit =
    Ensures->>= _ (account_at receiver b) _ (λ a has.
      Ensures-set_balance (Results (transfers sender receiver amount overdraw) debited b) b receiver
        (add_int a.balance amount) _
        (λ a' has'. (
          writes receiver a' _ has' (ground arith) refl (refl, refl) (λ k. refl),
          fit,
          λ h. inl refl,
        )))
next_inside-Results c p b fit = tt

-- Where a goroutine stands once the first account is locked, and once the second is unlocked.
abbrev inside : Call → Pc
inside c = if is_transfer c then wants_second else entered

abbrev outside : Call → Option Bool → Pc
outside c result = if is_transfer c then left_second result else returned result

first_locked :
    (c : Call)
    → is_idle c ≡ false
    → (is_in_bank (inside c) ≡ false)
      × (fits c (inside c) ≡ true)
      × ((k : ℤ) → holds c (inside c) k ≡ (holds c wants_first k || eqb_ℤ (first_of c) k))
first_locked (deposits id amount) busy = (refl, refl, (λ k. ground arith))
first_locked (transfers sender receiver amount overdraw) busy =
    (refl, ground (arith, busy), (λ k. ground arith))
first_locked (compares id amount threshold) busy = (refl, refl, (λ k. ground arith))

second_unlocked :
    (c : Call) (result : Option Bool)
    → is_idle c ≡ false
    → (holds c (leaving result) (second_of c) ≡ true)
      × (is_in_bank (outside c result) ≡ false)
      × (fits c (outside c result) ≡ true)
      × ((k : ℤ)
          → holds c (outside c result) k
            ≡ (holds c (leaving result) k && not (eqb_ℤ (second_of c) k)))
second_unlocked (deposits id amount) result busy = (ground arith, refl, refl, (λ k. ground arith))
second_unlocked (transfers sender receiver amount overdraw) result busy =
    (ground arith, refl, ground (arith, busy), (λ k. ground (arith, busy)))
second_unlocked (compares id amount threshold) result busy =
    (ground arith, refl, refl, (λ k. ground arith))

pub next-Results :
    (c : Call) (p : Pc) (b : Bank) → fits c p ≡ true → Ensures (Results c p b) (next c p b)
unfolding next
next-Results c begins b fit = elim (Bool-cases (is_idle c)) [
  | inl idle ↦ rw idle (stays refl (refl, refl) (λ k. refl), refl, λ h. cc)
  | inr busy ↦ rw busy (
      Ensures-lock_bank (Results c begins b) b _
        (λ free. (takes_bank free refl refl refl (λ k. refl), rw busy refl, λ h. cc)))
]
next-Results c in_bank b fit = Ensures-unlock_bank (Results c in_bank b) b _ (λ held.
    elim (Bool-cases (goes_on c b)) [
      | inl goes ↦ rw goes (gives_bank held refl refl refl (λ k. refl), fit, λ h. inr refl)
      | inr stops ↦ rw stops (gives_bank held refl refl refl (λ k. refl), refl, λ h. cc)
    ])
next-Results c wants_first b fit =
    Ensures-lock_account (Results c wants_first b) b (first_of c) _ (λ a has free.
      let (out, fit', same) = first_locked c (ground (arith, fit)) in
      (takes (first_of c) a has free refl (refl, out) same, fit', λ h. inl refl))
next-Results c wants_second b fit =
    Ensures-lock_account (Results c wants_second b) b (second_of c) _ (λ a has free. (
      takes (second_of c) a has free refl (refl, refl) (λ k. ground (arith, fit)),
      ground (arith, fit),
      λ h. inl refl,
    ))
next-Results c (leaving result) b fit =
    Ensures-unlock_account (Results c (leaving result) b) b (second_of c) _ (λ a has.
      let (held, out, fit', same) = second_unlocked c result (ground (arith, fit)) in
      (gives (second_of c) a has held refl (refl, out) same, fit', λ h. inl refl))
next-Results c (left_second result) b fit =
    Ensures-unlock_account (Results c (left_second result) b) b (first_of c) _ (λ a has. (
      gives (first_of c) a has (ground (arith, fit)) refl (refl, refl) (λ k. ground (arith, fit)),
      refl,
      λ h. inl refl,
    ))
next-Results c (returned result) b fit = tt
next-Results c p b fit = next_inside-Results c p b fit
