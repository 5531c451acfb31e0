-- ===== src/Lock/Server/Happenings.antt =====
-- raft-lock/server.go: what is in the channels, and what has been applied, after the loop and other
-- handlers have run for a while.
use cs_350_boston_u.Base.{
  ◌≡◌, ◌⊎◌, inl, inr, refl, sym, ap, subst, ◌∙◌, Bool-cases, none, some, List, [], ◌∷◌, returns,
  >>=-eq-returns, Option-cases,
}
use cs_350_boston_u.Base.Int.{ℤ, eqb_ℤ}
use cs_350_boston_u.Lock.Server.{Op, LockServer, assign}
use cs_350_boston_u.Lock.Server.Delivery.{
  Carries, Applied, apply_msg-Stepped, apply_msg-keeps, apply_msg-Carries,
}
use cs_350_boston_u.Lock.Server.Mutex.{Happening, open_result, take_result, happen, happen_all}

module _ {K : Type 0} where
  -- One of the messages that are applied carries the operation.
  abbrev pub Delivered : ℤ → Op K → List (Happening K) → Type 0
  Delivered index op [] = ⊥
  Delivered index op (Happening.applies msg ∷ hs) = Carries index op msg ⊎ Delivered index op hs
  Delivered index op (Happening.opens i ∷ hs) = Delivered index op hs
  Delivered index op (Happening.takes i ∷ hs) = Delivered index op hs

  -- Other handlers leave what has been applied, and put nothing in a channel.
  abbrev pub Quiet : LockServer K → LockServer K → Type 0
  Quiet ls ls' =
      (ls.last_applied ≡ ls'.last_applied)
      × ((index : ℤ) (a : Op K)
          → ls'.results index ≡ some (some a)
          → ls.results index ≡ some (some a))

  emptied-Quiet :
      (i : ℤ) (ls : LockServer K) → Quiet ls (record ls { results = assign ls.results i none })
  emptied-Quiet i ls = (
    refl,
    λ index a full. elim (Bool-cases (eqb_ℤ i index)) [
      | inl same ↦
          let none_left : some none ≡ some (some a) = sym (rw same refl) ∙ full in cc none_left
      | inr other ↦ sym (rw other refl) ∙ full
    ],
  )

  pub open_result-Quiet : (i : ℤ) (ls : LockServer K) → Quiet ls (open_result i ls)
  unfolding open_result
  open_result-Quiet i ls = elim (Option-cases (ls.results i)) [
    | inl missing ↦
        let e : open_result i ls ≡ record ls { results = assign ls.results i none } =
          rw (missing, open_result) refl in
        subst (Quiet ls) (sym e) (emptied-Quiet i ls)
    | inr (channel, there) ↦
        let e : open_result i ls ≡ ls = rw (there, open_result) refl in
        subst (Quiet ls) (sym e) (refl, λ index a full. full)
  ]

  take_result-Quiet : (i : ℤ) (ls : LockServer K) → Quiet ls (take_result i ls)
  unfolding take_result
  take_result-Quiet i ls = elim (Option-cases (ls.results i)) [
    | inl missing ↦
        let e : take_result i ls ≡ ls = rw (missing, take_result) refl in
        subst (Quiet ls) (sym e) (refl, λ index a full. full)
    | inr (none, empty) ↦
        let e : take_result i ls ≡ ls = rw (empty, take_result) refl in
        subst (Quiet ls) (sym e) (refl, λ index a full. full)
    | inr (some op, full) ↦
        let e : take_result i ls ≡ record ls { results = assign ls.results i none } =
          rw (full, take_result) refl in
        subst (Quiet ls) (sym e) (emptied-Quiet i ls)
  ]

  pub Quiet-keeps :
      (op : Op K) (ls ls' : LockServer K) → Quiet ls ls' → Applied op ls → Applied op ls'
  Quiet-keeps op ls ls' (same, _) (n, at, le) = (n, ap (λ f. f op.client_id) (sym same) ∙ at, le)

  happen-keeps :
      (op : Op K) (h : Happening K) (ls ls' : LockServer K)
      → happen h ls ≡ returns ls'
      → Applied op ls
      → Applied op ls'
  unfolding happen
  happen-keeps op (Happening.applies msg) ls ls' run applied =
      apply_msg-keeps op msg ls ls' (apply_msg-Stepped msg ls ls' run) applied
  happen-keeps op (Happening.opens i) ls ls' run applied =
      let same : open_result i ls ≡ ls' = cc run in
      subst (Applied op) same
        (Quiet-keeps op ls (open_result i ls) (open_result-Quiet i ls) applied)
  happen-keeps op (Happening.takes i) ls ls' run applied =
      let same : take_result i ls ≡ ls' = cc run in
      subst (Applied op) same
        (Quiet-keeps op ls (take_result i ls) (take_result-Quiet i ls) applied)

  pub happen_all-keeps :
      (op : Op K) (hs : List (Happening K)) (ls ls' : LockServer K)
      → happen_all hs ls ≡ returns ls'
      → Applied op ls
      → Applied op ls'
  unfolding happen_all
  happen_all-keeps op [] ls ls' run applied =
      let same : ls ≡ ls' = cc run in subst (Applied op) same applied
  happen_all-keeps op (h ∷ hs) ls ls' run applied =
      let (mid, first, rest) = >>=-eq-returns (happen h ls) (happen_all hs) run in
      happen_all-keeps op hs mid ls' rest (happen-keeps op h ls mid first applied)

  -- What a channel holds after one thing has happened.
  happen-Delivered :
      (index : ℤ) (a : Op K) (h : Happening K) (hs : List (Happening K)) (ls mid : LockServer K)
      → happen h ls ≡ returns mid
      → mid.results index ≡ some (some a)
      → (ls.results index ≡ some (some a)) ⊎ (Delivered index a (h ∷ hs) × Applied a mid)
  unfolding happen
  happen-Delivered index a (Happening.applies msg) hs ls mid run full =
      elim (apply_msg-Carries index a msg ls mid (apply_msg-Stepped msg ls mid run) full) [
        | inl there ↦ inl there
        | inr (carries, applied) ↦ inr (inl carries, applied)
      ]
  happen-Delivered index a (Happening.opens i) hs ls mid run full =
      let same : open_result i ls ≡ mid = cc run in
      inl ((open_result-Quiet i ls).1 index a (ap (λ x. x.results index) same ∙ full))
  happen-Delivered index a (Happening.takes i) hs ls mid run full =
      let same : take_result i ls ≡ mid = cc run in
      inl ((take_result-Quiet i ls).1 index a (ap (λ x. x.results index) same ∙ full))

  Delivered-later :
      (index : ℤ) (a : Op K) (h : Happening K) (hs : List (Happening K))
      → Delivered index a hs
      → Delivered index a (h ∷ hs)
  Delivered-later index a (Happening.applies msg) hs d = inr d
  Delivered-later index a (Happening.opens i) hs d = d
  Delivered-later index a (Happening.takes i) hs d = d

  pub happen_all-Delivered :
      (index : ℤ) (a : Op K) (hs : List (Happening K)) (ls ls' : LockServer K)
      → happen_all hs ls ≡ returns ls'
      → ls'.results index ≡ some (some a)
      → (ls.results index ≡ some (some a)) ⊎ (Delivered index a hs × Applied a ls')
  unfolding happen_all
  happen_all-Delivered index a [] ls ls' run full =
      let same : ls ≡ ls' = cc run in inl (ap (λ x. x.results index) same ∙ full)
  happen_all-Delivered index a (h ∷ hs) ls ls' run full =
      let (mid, first, rest) = >>=-eq-returns (happen h ls) (happen_all hs) run in
      elim (happen_all-Delivered index a hs mid ls' rest full) [
        | inr (delivered, applied) ↦ inr (Delivered-later index a h hs delivered, applied)
        | inl before ↦ elim (happen-Delivered index a h hs ls mid first before) [
          | inl there ↦ inl there
          | inr (delivered, applied) ↦ inr (delivered, happen_all-keeps a hs mid ls' rest applied)
        ]
      ]
