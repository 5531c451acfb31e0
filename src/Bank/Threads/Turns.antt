-- ===== src/Bank/Threads/Turns.antt =====
-- bank.go under concurrent calls: a goroutine moves on, has ended, or waits for a mutex that has an owner.
use cs_350_boston_u.Base.{
  ℕ, ◌<◌, ◌≡◌, ◌⊎◌, refl, subst, ◌∙◌, Bool, true, false, ◌||◌, Option, Option-cases, none, some,
  Bool-cases, inl, inr, if◌then◌else◌, returns, blocks, arith,
}
use cs_350_boston_u.Base.Int.{ℤ, leb_ℤ}
use cs_350_boston_u.Base.Word.{add_int, sub_int}
use cs_350_boston_u.Bank.{Account, Bank, put, has_account}
use cs_350_boston_u.Bank.Locks.{Call, deposits, transfers, compares}
use cs_350_boston_u.Bank.Threads.{
  Pc, begins, in_bank, wants_first, wants_second, entered, computed, credited, approved, debited,
  leaving, left_second, returned, is_transfer, first_of, second_of, is_idle, goes_on, refusal,
  next_inside, next, holds, is_in_bank, System,
}
use cs_350_boston_u.Bank.Threads.Effects.{fits, past}
use cs_350_boston_u.Bank.Threads.Owners.{Owners, Locked, owns, is_owned}
use cs_350_boston_u.Bank.Threads.Moves.{Standing}

account_there :
    (id : ℤ) (b : Bank) → has_account id b ≡ true → (a : Account) × (b.accounts id ≡ some a)
account_there id b has = elim (Option-cases (b.accounts id)) [
  | inl missing ↦ absurd (ground (arith, missing, has))
  | inr there ↦ there
]

goes_on-first : (c : Call) (b : Bank) → goes_on c b ≡ true → has_account (first_of c) b ≡ true
goes_on-first (deposits id amount) b goes = goes
goes_on-first (transfers sender receiver amount overdraw) b goes = ground (arith, goes)
goes_on-first (compares id amount threshold) b goes = ground (arith, goes)

goes_on-second : (c : Call) (b : Bank) → goes_on c b ≡ true → has_account (second_of c) b ≡ true
goes_on-second (deposits id amount) b goes = goes
goes_on-second (transfers sender receiver amount overdraw) b goes = ground (arith, goes)
goes_on-second (compares id amount threshold) b goes = ground (arith, goes)

module _ (c : Call) (p : Pc) (b : Bank) (owner : ℤ → Option ℕ) where
  pub data Turn : Type 0 where
    moves : (b' : Bank) (p' : Pc) → next c p b ≡ returns (b', p') → Turn
    ended : (result : Option Bool) → p ≡ returned result → Turn
    waits_bank : p ≡ begins → b.bank_locked ≡ true → next c p b ≡ blocks → Turn
    waits :
        (k : ℤ) (j : ℕ)
        → owner k ≡ some j
        → (p ≡ wants_first) ⊎ ((p ≡ wants_second) × (k ≡ second_of c))
        → next c p b ≡ blocks
        → Turn

abbrev is_inside : Pc → Bool
is_inside entered = true
is_inside (computed new_balance) = true
is_inside credited = true
is_inside approved = true
is_inside debited = true
is_inside p = false

-- The statements between the locks and the unlocks return.
inside_moves :
    (c : Call) (p : Pc) (b : Bank)
    → is_inside p ≡ true
    → fits c p ≡ true
    → goes_on c b ≡ true
    → (b' : Bank) × (p' : Pc) × (next_inside c p b ≡ returns (b', p'))
unfolding next_inside
inside_moves (deposits id amount) entered b here fit goes =
    let (a, has) = account_there id b goes in
    (b, computed (add_int a.balance amount), ground (arith, has))
inside_moves (deposits id amount) (computed new_balance) b here fit goes =
    let (a, has) = account_there id b goes in
    (put id (record a { balance = new_balance }) b, leaving none, ground (arith, has))
inside_moves (compares id amount threshold) entered b here fit goes =
    let (a, has) = account_there id b (ground (arith, goes)) in
    (put id (record a { balance = add_int a.balance amount }) b, credited, ground (arith, has))
inside_moves (compares id amount threshold) credited b here fit goes =
    let (a, has) = account_there id b (ground (arith, goes)) in
    (b, leaving (some (leb_ℤ threshold a.balance)), ground (arith, has))
inside_moves (transfers sender receiver amount overdraw) entered b here fit goes =
    let (a, has) = account_there sender b (ground (arith, goes)) in
    (
      b,
      if leb_ℤ amount a.balance || overdraw then approved else leaving (some false),
      ground (arith, has),
    )
inside_moves (transfers sender receiver amount overdraw) approved b here fit goes =
    let (a, has) = account_there sender b (ground (arith, goes)) in
    (put sender (record a { balance = sub_int a.balance amount }) b, debited, ground (arith, has))
inside_moves (transfers sender receiver amount overdraw) debited b here fit goes =
    let (a, has) = account_there receiver b (ground (arith, goes)) in
    (
      put receiver (record a { balance = add_int a.balance amount }) b,
      leaving (some true),
      ground (arith, has),
    )
inside_moves c p b here fit goes = absurd (cc)

leaving_holds : (c : Call) (result : Option Bool) → holds c (leaving result) (second_of c) ≡ true
leaving_holds (deposits id amount) result = ground arith
leaving_holds (transfers sender receiver amount overdraw) result = ground arith
leaving_holds (compares id amount threshold) result = ground arith

module _ (c : Call) (b : Bank) (owner : ℤ → Option ℕ) (bank_owner : Option ℕ) (i : ℕ)
    (locks : (k : ℤ) → Locked (b.accounts k) (owner k))
    (bank_lock : b.bank_locked ≡ is_owned bank_owner) where
  locked_at : (id : ℤ) (a : Account) → b.accounts id ≡ some a → a.locked ≡ is_owned (owner id)
  locked_at id a has = subst (λ x. Locked x (owner id)) has (locks id)

  -- The goroutine unlocks what it holds.
  held_account :
      (p : Pc) (id : ℤ)
      → holds c p id ≡ owns (owner id) i
      → holds c p id ≡ true
      → has_account id b ≡ true
      → (a : Account) × (b.accounts id ≡ some a) × (a.locked ≡ true)
  held_account p id mine held there =
      let (a, has) = account_there id b there in
      (
        a,
        has,
        elim (Option-cases (owner id)) [
          | inl nobody ↦ absurd (ground (arith, mine, held, nobody))
          | inr (j, e) ↦ locked_at id a has ∙ rw e refl
        ],
      )

  turn_inside :
      (p : Pc)
      → is_inside p ≡ true
      → fits c p ≡ true
      → goes_on c b ≡ true
      → next c p b ≡ next_inside c p b
      → Turn c p b owner
  turn_inside p here fit goes same =
      let (b', p', run) = inside_moves c p b here fit goes in moves b' p' (same ∙ run)

  turn_at :
      (p : Pc)
      → fits c p ≡ true
      → (past p ≡ true → goes_on c b ≡ true)
      → ((k : ℤ) → holds c p k ≡ owns (owner k) i)
      → is_in_bank p ≡ owns bank_owner i
      → Turn c p b owner
  unfolding next
  turn_at begins fit goes mine visits = elim (Bool-cases (is_idle c)) [
    | inl idle ↦ moves b (returned (refusal c)) (ground (arith, idle))
    | inr busy ↦ elim (Bool-cases b.bank_locked) [
      | inl held ↦ waits_bank refl held (ground (arith, busy, held))
      | inr free ↦ moves (record b { bank_locked = true }) in_bank (ground (arith, busy, free))
    ]
  ]
  turn_at in_bank fit goes mine visits = elim (Option-cases bank_owner) [
    | inl nobody ↦ absurd (ground (arith, visits, nobody))
    | inr (j, e) ↦
        let held : b.bank_locked ≡ true = bank_lock ∙ rw e refl in
        moves (record b { bank_locked = false })
          (if goes_on c b then wants_first else returned (refusal c)) (ground (arith, held))
  ]
  turn_at wants_first fit goes mine visits =
      let (a, has) = account_there (first_of c) b (goes_on-first c b (goes refl)) in
      elim (Option-cases (owner (first_of c))) [
        | inl nobody ↦
            let free : a.locked ≡ false = locked_at (first_of c) a has ∙ rw nobody refl in
            moves (put (first_of c) (record a { locked = true }) b)
              (if is_transfer c then wants_second else entered) (ground (arith, has, free))
        | inr (j, e) ↦
            let held : a.locked ≡ true = locked_at (first_of c) a has ∙ rw e refl in
            waits (first_of c) j e (inl refl) (ground (arith, has, held))
      ]
  turn_at wants_second fit goes mine visits =
      let (a, has) = account_there (second_of c) b (goes_on-second c b (goes refl)) in
      elim (Option-cases (owner (second_of c))) [
        | inl nobody ↦
            let free : a.locked ≡ false = locked_at (second_of c) a has ∙ rw nobody refl in
            moves (put (second_of c) (record a { locked = true }) b) entered
              (ground (arith, has, free))
        | inr (j, e) ↦
            let held : a.locked ≡ true = locked_at (second_of c) a has ∙ rw e refl in
            waits (second_of c) j e (inr (refl, refl)) (ground (arith, has, held))
      ]
  turn_at (leaving result) fit goes mine visits =
      let (a, has, held) =
        held_account (leaving result) (second_of c) (mine (second_of c)) (leaving_holds c result)
          (goes_on-second c b (goes refl)) in
      moves (put (second_of c) (record a { locked = false }) b)
        (if is_transfer c then left_second result else returned result) (ground (arith, has, held))
  turn_at (left_second result) fit goes mine visits =
      let (a, has, held) =
        held_account (left_second result) (first_of c) (mine (first_of c)) (ground arith)
          (goes_on-first c b (goes refl)) in
      moves (put (first_of c) (record a { locked = false }) b) (returned result)
        (ground (arith, has, held))
  turn_at (returned result) fit goes mine visits = ended result refl
  turn_at entered fit goes mine visits = turn_inside entered refl fit (goes refl) refl
  turn_at (computed balance) fit goes mine visits =
      turn_inside (computed balance) refl fit (goes refl) refl
  turn_at credited fit goes mine visits = turn_inside credited refl fit (goes refl) refl
  turn_at approved fit goes mine visits = turn_inside approved refl fit (goes refl) refl
  turn_at debited fit goes mine visits = turn_inside debited refl fit (goes refl) refl

pub turn :
    (n : ℕ) (call : ℕ → Call) (s : System) (i : ℕ) (owners : Owners n call s)
    → Standing n call s
    → i < n
    → Turn (call i) (s.pc i) s.bank owners.owner
turn n call s i o standing lt =
    turn_at (call i) s.bank o.owner o.bank_owner i o.locks o.bank_lock (s.pc i) ((standing i lt).0)
      ((standing i lt).1) (o.holders i lt) (o.visitor i lt)
