-- ===== src/MapReduce/Keys.antt =====
-- mr/worker.go and mr-main/mrsequential.go, what a job has to compute: the values of a key among the
-- intermediate pairs, and the outputs that are printed for the key.
use mathlib.Core.List.{Perm, Permᴰ}
use mathlib.Core.List.Perm
use mathlib.Core.Logic.{∥∥₁_elim, ∥∥₁_prop}
use cs_350_boston_u.Base.{
  ◌≡◌, refl, sym, ap, List, [], ◌∷◌, ◌++◌, if◌then◌else◌, arith, Bool-cases, inl, inr,
}
use cs_350_boston_u.Base.Comparable.{Comparable}
use cs_350_boston_u.MapReduce.Worker.{KeyValue}

module _ {K V : Type 0} ⦃keys : Comparable K⦄ where
  -- The values of the pairs that have the key, in their order.
  abbrev pub values_of : K → List (KeyValue K V) → List V
  values_of key [] = []
  values_of key (kv ∷ kvs) =
      if keys.eqb kv.key key then kv.value ∷ values_of key kvs else values_of key kvs

  -- What the lines of the key print.
  abbrev pub outputs_for : K → List (K × V) → List V
  outputs_for key [] = []
  outputs_for key ((k, v) ∷ lines) =
      if keys.eqb k key then v ∷ outputs_for key lines else outputs_for key lines

  pub values_of-append :
      (key : K) (xs ys : List (KeyValue K V))
      → values_of key (xs ++ ys) ≡ values_of key xs ++ values_of key ys
  values_of-append key [] ys = refl
  values_of-append key (x ∷ xs) ys = ground (arith, values_of-append key xs ys)

  pub outputs_for-append :
      (key : K) (xs ys : List (K × V))
      → outputs_for key (xs ++ ys) ≡ outputs_for key xs ++ outputs_for key ys
  outputs_for-append key [] ys = refl
  outputs_for-append key ((k, v) ∷ xs) ys = ground (arith, outputs_for-append key xs ys)

  values_of-cons :
      (key : K) (kv : KeyValue K V) (xs ys : List (KeyValue K V))
      → Perm (values_of key xs) (values_of key ys)
      → Perm (values_of key (kv ∷ xs)) (values_of key (kv ∷ ys))
  values_of-cons key kv xs ys h = elim (Bool-cases (keys.eqb kv.key key)) [
    | inl same ↦ rw same (Perm.cons kv.value h)
    | inr other ↦ rw other h
  ]

  values_of-swap :
      (key : K) (x y : KeyValue K V) (l : List (KeyValue K V))
      → Perm (values_of key (x ∷ y ∷ l)) (values_of key (y ∷ x ∷ l))
  values_of-swap key x y l = elim (Bool-cases (keys.eqb x.key key)) [
    | inl a ↦ elim (Bool-cases (keys.eqb y.key key)) [
      | inl b ↦ rw (a, b) (Perm.swap y.value x.value (values_of key l))
      | inr b ↦ rw (a, b) (Perm.refl _)
    ]
    | inr a ↦ rw a (Perm.refl _)
  ]

  values_of-Permᴰ :
      (key : K) {xs ys : List (KeyValue K V)}
      → Permᴰ xs ys
      → Perm (values_of key xs) (values_of key ys)
  values_of-Permᴰ key Permᴰ.nil = Perm.refl []
  values_of-Permᴰ key (Permᴰ.cons {a} e d) =
      rw (sym e) (values_of-cons key a _ _ (values_of-Permᴰ key d))
  values_of-Permᴰ key (Permᴰ.swap {a} {b} {l = l} e e') =
      rw (sym e, sym e') (values_of-swap key a b l)
  values_of-Permᴰ key (Permᴰ.trans d d') =
      Perm.trans (values_of-Permᴰ key d) (values_of-Permᴰ key d')

  pub values_of-Perm :
      (key : K) {xs ys : List (KeyValue K V)}
      → Perm xs ys
      → Perm (values_of key xs) (values_of key ys)
  values_of-Perm key p = ∥∥₁_elim p ∥∥₁_prop (λ d. values_of-Permᴰ key d)

module _ {K V : Type 0} where
  -- The outputs of a key that has these values: one, unless it has none.
  abbrev pub output_of : (K → List V → V) → K → List V → List V
  output_of reducef key [] = []
  output_of reducef key (v ∷ values) = reducef key (v ∷ values) ∷ []

  -- The order of the values does not matter to the plugin.
  abbrev pub OrderFree : (K → List V → V) → Type 0
  OrderFree reducef = (key : K) (vs ws : List V) → Perm vs ws → reducef key vs ≡ reducef key ws

  pub output_of-Perm :
      (reducef : K → List V → V)
      → OrderFree reducef
      → (key : K) (vs ws : List V) → Perm vs ws
      → output_of reducef key vs ≡ output_of reducef key ws
  output_of-Perm reducef free key [] [] p = refl
  output_of-Perm reducef free key [] (w ∷ ws) p = cc (Perm.nil-eq p)
  output_of-Perm reducef free key (v ∷ vs) [] p = cc (Perm.eq-nil p)
  output_of-Perm reducef free key (v ∷ vs) (w ∷ ws) p =
      ap (λ r. r ∷ []) (free key (v ∷ vs) (w ∷ ws) p)
