-- ===== src/Bank/Threads/Handover.antt =====
-- bank.go under concurrent calls: what a statement does to the owners of the mutexes.
use cs_350_boston_u.Base.{
  ℕ, ◌<◌, ◌==◌, ◌≡◌, refl, sym, subst, ap, ◌∙◌, true, false, not, ◌&&◌, ◌||◌, Option, Option-cases,
  none, some, Bool-cases, inl, inr, if◌then◌else◌, arith,
}
use cs_350_boston_u.Base.Int.{ℤ, eqb_ℤ, eqb→eq}
use cs_350_boston_u.Bank.{Account, Bank, put}
use cs_350_boston_u.Bank.Locks.{Call}
use cs_350_boston_u.Bank.Threads.{Pc, holds, is_in_bank, System, moved_on}
use cs_350_boston_u.Bank.Threads.Effects.{
  Effect, takes_bank, gives_bank, takes, gives, writes, stays,
}
use cs_350_boston_u.Bank.Threads.Owners.{
  owns, is_owned, Locked, or_true, or_false, and_true, and_false, Owners, moved_cases,
}

module _ (n : ℕ) (call : ℕ → Call) (s : System) (i : ℕ) (p' : Pc) (b' : Bank) (lt : i < n)
    (o : Owners n call s) where
  -- The mutexes of the accounts are as they were, and who holds them.
  Holders : (ℤ → Option ℕ) → Type 0
  Holders owner =
      (j : ℕ)
      → j < n
      → (k : ℤ) → holds (call j) (if i == j then p' else s.pc j) k ≡ owns (owner k) j

  Holders-same : ((k : ℤ) → holds (call i) p' k ≡ holds (call i) (s.pc i) k) → Holders o.owner
  unfolding Holders
  Holders-same same =
      moved_cases s i p' (λ j p. j < n → (k : ℤ) → holds (call j) p k ≡ owns (o.owner k) j)
        (λ lt' k. same k ∙ o.holders i lt k) (λ j other lt' k. o.holders j lt' k)

  Visitor : Option ℕ → Type 0
  Visitor owner = (j : ℕ) → j < n → is_in_bank (if i == j then p' else s.pc j) ≡ owns owner j

  Visitor-same : is_in_bank p' ≡ is_in_bank (s.pc i) → Visitor o.bank_owner
  unfolding Visitor
  Visitor-same same =
      moved_cases s i p' (λ j p. j < n → is_in_bank p ≡ owns o.bank_owner j)
        (λ lt'. same ∙ o.visitor i lt) (λ j other lt'. o.visitor j lt')

  owner_none :
      (id : ℤ) (a : Account) → s.bank.accounts id ≡ some a → a.locked ≡ false → o.owner id ≡ none
  owner_none id a has free = elim (Option-cases (o.owner id)) [
    | inl nobody ↦ nobody
    | inr (j, held) ↦
        absurd (ground (arith, subst (λ x. Locked x (o.owner id)) has (o.locks id), free, held))
  ]

  owner_some : (id : ℤ) → holds (call i) (s.pc i) id ≡ true → o.owner id ≡ some i
  owner_some id held = elim (Option-cases (o.owner id)) [
    | inl nobody ↦ absurd (ground (arith, o.holders i lt id, held, nobody))
    | inr (j, has) ↦ ground (arith, o.holders i lt id, held, has)
  ]

  abbrev given : ℤ → Option ℕ → ℤ → Option ℕ
  given id who k = if eqb_ℤ id k then who else o.owner k

  Holders-takes :
      (id : ℤ)
      → o.owner id ≡ none
      → ((k : ℤ) → holds (call i) p' k ≡ (holds (call i) (s.pc i) k || eqb_ℤ id k))
      → Holders (given id (some i))
  unfolding Holders
  Holders-takes id nobody more =
      moved_cases s i p'
        (λ j p. j < n → (k : ℤ) → holds (call j) p k ≡ owns (given id (some i) k) j)
        (λ lt' k. more k ∙ elim (Bool-cases (eqb_ℤ id k)) [
          | inl at ↦ rw at (or_true (holds (call i) (s.pc i) k) ∙ ground arith)
          | inr off ↦ rw off (or_false (holds (call i) (s.pc i) k) ∙ o.holders i lt k)
        ])
        (λ j other lt' k. elim (Bool-cases (eqb_ℤ id k)) [
          | inl at ↦ rw at (
              o.holders j lt' k
              ∙ ap (λ x. owns x j) (ap o.owner (sym (eqb→eq id k at)) ∙ nobody)
              ∙ sym other)
          | inr off ↦ rw off (o.holders j lt' k)
        ])

  Holders-gives :
      (id : ℤ)
      → o.owner id ≡ some i
      → ((k : ℤ) → holds (call i) p' k ≡ (holds (call i) (s.pc i) k && not (eqb_ℤ id k)))
      → Holders (given id none)
  unfolding Holders
  Holders-gives id mine less =
      moved_cases s i p' (λ j p. j < n → (k : ℤ) → holds (call j) p k ≡ owns (given id none k) j)
        (λ lt' k. less k ∙ elim (Bool-cases (eqb_ℤ id k)) [
          | inl at ↦ rw at (and_false (holds (call i) (s.pc i) k))
          | inr off ↦ rw off (and_true (holds (call i) (s.pc i) k) ∙ o.holders i lt k)
        ])
        (λ j other lt' k. elim (Bool-cases (eqb_ℤ id k)) [
          | inl at ↦ rw at (
              o.holders j lt' k
              ∙ ap (λ x. owns x j) (ap o.owner (sym (eqb→eq id k at)) ∙ mine)
              ∙ other)
          | inr off ↦ rw off (o.holders j lt' k)
        ])

  Visitor-takes : s.bank.bank_locked ≡ false → is_in_bank p' ≡ true → Visitor (some i)
  unfolding Visitor
  Visitor-takes free enters =
      moved_cases s i p' (λ j p. j < n → is_in_bank p ≡ owns (some i) j)
        (λ lt'. enters ∙ ground arith)
        (λ j other lt'. o.visitor j lt' ∙ ap (λ x. owns x j) nobody ∙ sym other)
    where
      nobody : o.bank_owner ≡ none
      nobody = elim (Option-cases o.bank_owner) [
        | inl none_there ↦ none_there
        | inr (j, held) ↦ absurd (ground (arith, o.bank_lock, free, held))
      ]

  Visitor-gives : is_in_bank (s.pc i) ≡ true → is_in_bank p' ≡ false → Visitor none
  unfolding Visitor
  Visitor-gives inside leaves =
      moved_cases s i p' (λ j p. j < n → is_in_bank p ≡ false) (λ lt'. leaves)
        (λ j other lt'. o.visitor j lt' ∙ ap (λ x. owns x j) mine ∙ other)
    where
      mine : o.bank_owner ≡ some i
      mine = elim (Option-cases o.bank_owner) [
        | inl nobody ↦ absurd (ground (arith, o.visitor i lt, inside, nobody))
        | inr (j, held) ↦ ground (arith, o.visitor i lt, inside, held)
      ]

  -- The mutexes after a write to the map of accounts.
  locks-put :
      (id : ℤ) (a : Account) (who : Option ℕ)
      → a.locked ≡ is_owned who
      → (k : ℤ) → Locked ((put id a s.bank).accounts k) (given id who k)
  locks-put id a who same k = elim (Bool-cases (eqb_ℤ id k)) [
    | inl at ↦ rw at same
    | inr off ↦ rw off (o.locks k)
  ]

  locks-balance :
      (id : ℤ) (a : Account) (balance : ℤ)
      → s.bank.accounts id ≡ some a
      → (k : ℤ) → Locked ((put id (record a { balance = balance }) s.bank).accounts k) (o.owner k)
  locks-balance id a balance has k = elim (Bool-cases (eqb_ℤ id k)) [
    | inl at ↦ rw at (
        subst (λ x. Locked x (o.owner k)) (ap s.bank.accounts (sym (eqb→eq id k at)) ∙ has)
          (o.locks k))
    | inr off ↦ rw off (o.locks k)
  ]

  pub Owners-Effect : Effect (call i) (s.pc i) s.bank p' b' → Owners n call (moved_on s i b' p')
  unfolding Holders Visitor
  Owners-Effect (takes_bank free eq out enters same) = record {
    owner = o.owner;
    bank_owner = some i;
    holders = Holders-same same;
    locks = rw eq o.locks;
    below = o.below;
    visitor = Visitor-takes free enters;
    bank_lock = rw eq refl;
    bank_below = λ j e. ground (arith, e, lt);
  }
  Owners-Effect (gives_bank held eq inside leaves same) = record {
    owner = o.owner;
    bank_owner = none;
    holders = Holders-same same;
    locks = rw eq o.locks;
    below = o.below;
    visitor = Visitor-gives inside leaves;
    bank_lock = rw eq refl;
    bank_below = λ j e. cc;
  }
  Owners-Effect (takes id a has free eq (out, out') more) = record {
    owner = given id (some i);
    bank_owner = o.bank_owner;
    holders = Holders-takes id (owner_none id a has free) more;
    locks = rw eq (locks-put id (record a { locked = true }) (some i) refl);
    below = λ k j e. ground (arith, e, lt, o.below k j);
    visitor = Visitor-same (out' ∙ sym out);
    bank_lock = rw eq o.bank_lock;
    bank_below = o.bank_below;
  }
  Owners-Effect (gives id a has held eq (out, out') less) = record {
    owner = given id none;
    bank_owner = o.bank_owner;
    holders = Holders-gives id (owner_some id held) less;
    locks = rw eq (locks-put id (record a { locked = false }) none refl);
    below = λ k j e. ground (arith, e, o.below k j);
    visitor = Visitor-same (out' ∙ sym out);
    bank_lock = rw eq o.bank_lock;
    bank_below = o.bank_below;
  }
  Owners-Effect (writes id a balance has held eq (out, out') same) = record {
    owner = o.owner;
    bank_owner = o.bank_owner;
    holders = Holders-same same;
    locks = rw eq (locks-balance id a balance has);
    below = o.below;
    visitor = Visitor-same (out' ∙ sym out);
    bank_lock = rw eq o.bank_lock;
    bank_below = o.bank_below;
  }
  Owners-Effect (stays eq (out, out') same) = record {
    owner = o.owner;
    bank_owner = o.bank_owner;
    holders = Holders-same same;
    locks = rw eq o.locks;
    below = o.below;
    visitor = Visitor-same (out' ∙ sym out);
    bank_lock = rw eq o.bank_lock;
    bank_below = o.bank_below;
  }
