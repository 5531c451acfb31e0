-- ===== src/MapReduce/Job/Orders.antt =====
-- mr/worker.go: what the order of a job's tasks does not change.
use mathlib.Core.List.{Perm, Permᴰ, append_assoc, append-nil}
use mathlib.Core.List.Perm
use mathlib.Core.List.Permᴰ
use mathlib.Core.Bool.{Bool-set}
use mathlib.Core.Logic.{∥∥₁_elim, ∥∥₁_prop}
use cs_350_boston_u.Base.{
  ℕ, suc, ◌<◌, ◌==◌, ltb, ◌≡◌, refl, sym, ap, ◌∙◌, true, false, ◌||◌, List, [], ◌∷◌, ◌++◌, map,
  if◌then◌else◌, returns, arith, Bool-cases, inl, inr, ==_iff,
}
use cs_350_boston_u.MapReduce.Worker.{KeyValue, Disk}
use cs_350_boston_u.MapReduce.Sequential.{read_inputs}
use cs_350_boston_u.MapReduce.Job.{listed, pairs_of, Readable}

module _ {A : Type 0} where
  -- Of the first numbers, the one that is picked.
  pub pick :
      (h r : ℕ) (X : ℕ → List A)
      → (if ltb h r then X h else []) ++ (if h == r then X r else [])
        ≡ (if ltb h (suc r) then X h else [])
  pick h r X = elim (Bool-cases (h == r)) [
    | inl at ↦
        let e : h ≡ r = (==_iff h r).0 at in
        let not_before : ltb h r ≡ false = ground (arith, e) in
        let before : ltb h (suc r) ≡ true = ground (arith, e) in
        rw (at, not_before, before) (ap X (sym e))
    | inr off ↦ elim (Bool-cases (ltb h r)) [
      | inl lt ↦
          let before : ltb h (suc r) ≡ true = ground (arith, lt) in
          rw (off, lt, before) (append-nil (X h))
      | inr ge ↦
          let not_before : ltb h (suc r) ≡ false = ground (arith, off, ge) in
          rw (off, ge, not_before) refl
    ]
  ]

  append-swap : (xs ys zs : List A) → Perm (xs ++ (ys ++ zs)) (ys ++ (xs ++ zs))
  append-swap xs ys zs =
      rw (sym (append_assoc xs ys zs), sym (append_assoc ys xs zs))
        (Perm.append_right zs ∣ Permᴰ.append_comm xs ys ∣₁)

listed-cons :
    (t x : ℕ) (xs ys : List ℕ) → (listed t xs ≡ listed t ys) → listed t (x ∷ xs) ≡ listed t (x ∷ ys)
listed-cons t x xs ys h = ap (λ b. (t == x) || b) h

listed-Permᴰ : (t : ℕ) (xs ys : List ℕ) → Permᴰ xs ys → listed t xs ≡ listed t ys
listed-Permᴰ t _ _ Permᴰ.nil = refl
listed-Permᴰ t _ _ (Permᴰ.cons {a} {l₁} {l₂} e d) =
    rw (sym e) (listed-cons t a l₁ l₂ (listed-Permᴰ t l₁ l₂ d))
listed-Permᴰ t _ _ (Permᴰ.swap {a} {b} {l = l} e e') = rw (sym e, sym e') (ground (arith))
listed-Permᴰ t _ _ (Permᴰ.trans {l₁} {l₂} {l₃} d d') =
    listed-Permᴰ t l₁ l₂ d ∙ listed-Permᴰ t l₂ l₃ d'

pub listed-Perm : (t : ℕ) (xs ys : List ℕ) → Perm xs ys → listed t xs ≡ listed t ys
listed-Perm t xs ys p = ∥∥₁_elim p (Bool-set _ _) (λ d. listed-Permᴰ t xs ys d)

module _ {K V F : Type 0} (mapf : F → List ℕ → List (KeyValue K V)) (input : ℕ → F)
    (content : ℕ → List ℕ) where
  pairs_of-Permᴰ :
      (xs ys : List ℕ)
      → Permᴰ xs ys
      → Perm (pairs_of mapf input content xs) (pairs_of mapf input content ys)
  pairs_of-Permᴰ _ _ Permᴰ.nil = Perm.refl []
  pairs_of-Permᴰ _ _ (Permᴰ.cons {a} {l₁} {l₂} e d) =
      rw (sym e) (Perm.append_left (mapf (input a) (content a)) (pairs_of-Permᴰ l₁ l₂ d))
  pairs_of-Permᴰ _ _ (Permᴰ.swap {a} {b} {l = l} e e') =
      rw (sym e, sym e')
        (append-swap (mapf (input a) (content a)) (mapf (input b) (content b))
          (pairs_of mapf input content l))
  pairs_of-Permᴰ _ _ (Permᴰ.trans {l₁} {l₂} {l₃} d d') =
      Perm.trans (pairs_of-Permᴰ l₁ l₂ d) (pairs_of-Permᴰ l₂ l₃ d')

  pub pairs_of-Perm :
      (xs ys : List ℕ)
      → Perm xs ys
      → Perm (pairs_of mapf input content xs) (pairs_of mapf input content ys)
  pairs_of-Perm xs ys p = ∥∥₁_elim p ∥∥₁_prop (λ d. pairs_of-Permᴰ xs ys d)

  pub read_inputs-pairs_of :
      (m : ℕ) (tasks : List ℕ) (d : Disk K V F)
      → Readable input content m d
      → ((t : ℕ) → listed t tasks ≡ true → t < m)
      → read_inputs mapf (map input tasks) d ≡ returns (pairs_of mapf input content tasks)
  unfolding read_inputs
  read_inputs-pairs_of m [] d there below = refl
  read_inputs-pairs_of m (t ∷ tasks) d there below =
      rw
        (
          there t (below t (ground arith)),
          read_inputs-pairs_of m tasks d there (λ u h. below u (ground (arith, h))),
        )
        refl
