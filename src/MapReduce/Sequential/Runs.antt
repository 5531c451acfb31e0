-- ===== src/MapReduce/Sequential/Runs.antt =====
-- mr-main/mrsequential.go: the loop over the sorted pairs prints one line for each key, with the output
-- for all its values.
use mathlib.Core.List.{Perm}
use mathlib.Core.Path.{ap₂}
use cs_350_boston_u.Base.{
  ℕ, zero, suc, ◌≤◌, ◌≡◌, refl, sym, ap, ◌∙◌, Bool, false, List, [], ◌∷◌, length, arith, Bool-cases,
  inl, inr,
}
use cs_350_boston_u.Base.Comparable.{Comparable, eqb_true}
use cs_350_boston_u.MapReduce.Worker.{KeyValue}
use cs_350_boston_u.MapReduce.Sequential.{take_run, reduce_runs}
use cs_350_boston_u.MapReduce.Keys.{values_of, outputs_for, output_of}

-- `<` on keys: of two keys that are not less than each other, both are the same.
pub record Ordering (K : Type 0) : Type 0 where
  pub less : K → K → Bool
  pub total : (a b : K) → less a b ≡ false → less b a ≡ false → a ≡ b

module _ {K V : Type 0} (order : Ordering K) where
  -- No pair's key is less than the key.
  abbrev pub After : K → List (KeyValue K V) → Type 0
  After key [] = Unit
  After key (kv ∷ kvs) = (order.less kv.key key ≡ false) × After key kvs

  abbrev pub Ascending : List (KeyValue K V) → Type 0
  Ascending [] = Unit
  Ascending (kv ∷ kvs) = After kv.key kvs × Ascending kvs

-- What `sort.Sort` documents: the pairs in ascending order of the keys, the same pairs.
pub record Sorts (K V : Type 0) (order : Ordering K)
    (sort : List (KeyValue K V) → List (KeyValue K V)) : Type 0 where
  pub ascending : (kvs : List (KeyValue K V)) → Ascending order (sort kvs)
  pub permutes : (kvs : List (KeyValue K V)) → Perm (sort kvs) kvs

module _ {K V : Type 0} ⦃keys : Comparable K⦄ where
  take_run-others :
      (key k : K) (kvs : List (KeyValue K V))
      → keys.eqb key k ≡ false
      → values_of k (take_run key kvs).1 ≡ values_of k kvs
  unfolding take_run
  take_run-others key k [] other = refl
  take_run-others key k (kv ∷ kvs) other = elim (Bool-cases (keys.eqb kv.key key)) [
    | inl same ↦
        let apart : keys.eqb kv.key k ≡ false = rw (eqb_true kv.key key same) other in
        rw (same, apart) (take_run-others key k kvs other)
    | inr off ↦ rw off refl
  ]

  length-take_run : (key : K) (kvs : List (KeyValue K V)) → length (take_run key kvs).1 ≤ length kvs
  unfolding take_run
  length-take_run key [] = omega arith
  length-take_run key (kv ∷ kvs) = elim (Bool-cases (keys.eqb kv.key key)) [
    | inl same ↦ rw same (omega (arith, length-take_run key kvs))
    | inr off ↦ rw off (omega arith)
  ]

module _ {K V : Type 0} ⦃keys : Comparable K⦄ (order : Ordering K) where
  -- A pair with the key cannot come after a larger key.
  values_of-After :
      (key k : K) (kvs : List (KeyValue K V))
      → order.less k key ≡ false
      → keys.eqb k key ≡ false
      → After order k kvs
      → values_of key kvs ≡ []
  values_of-After key k [] ge other after = refl
  values_of-After key k (kv ∷ kvs) ge other (ge', after) = elim (Bool-cases (keys.eqb kv.key key)) [
    | inl same ↦
        let e : kv.key ≡ key = eqb_true kv.key key same in
        let eq : k ≡ key = order.total k key ge (rw (sym e) ge') in
        absurd (cc ((keys.eqb_iff k key).1 eq, other))
    | inr off ↦ rw off (values_of-After key k kvs ge other after)
  ]

  take_run-values :
      (key : K) (kvs : List (KeyValue K V))
      → After order key kvs
      → Ascending order kvs
      → (take_run key kvs).0 ≡ values_of key kvs
  unfolding take_run
  take_run-values key [] after sorted = refl
  take_run-values key (kv ∷ kvs) (ge, after) (later, sorted) =
      elim (Bool-cases (keys.eqb kv.key key)) [
        | inl same ↦ rw same (ap (λ r. kv.value ∷ r) (take_run-values key kvs after sorted))
        | inr off ↦ rw off (sym (values_of-After key kv.key kvs ge off later))
      ]

  take_run-none_left :
      (key : K) (kvs : List (KeyValue K V))
      → After order key kvs
      → Ascending order kvs
      → values_of key (take_run key kvs).1 ≡ []
  unfolding take_run
  take_run-none_left key [] after sorted = refl
  take_run-none_left key (kv ∷ kvs) (ge, after) (later, sorted) =
      elim (Bool-cases (keys.eqb kv.key key)) [
        | inl same ↦ rw same (take_run-none_left key kvs after sorted)
        | inr off ↦ rw (off, off) (values_of-After key kv.key kvs ge off later)
      ]

  take_run-Ascending :
      (key : K) (kvs : List (KeyValue K V))
      → Ascending order kvs
      → Ascending order (take_run key kvs).1
  unfolding take_run
  take_run-Ascending key [] sorted = tt
  take_run-Ascending key (kv ∷ kvs) (later, sorted) = elim (Bool-cases (keys.eqb kv.key key)) [
    | inl same ↦ rw same (take_run-Ascending key kvs sorted)
    | inr off ↦ rw off (later, sorted)
  ]

  pub outputs_for-reduce_runs :
      (rounds : ℕ) (reducef : K → List V → V) (key : K) (kvs : List (KeyValue K V))
      → length kvs ≤ rounds
      → Ascending order kvs
      → outputs_for key (reduce_runs rounds reducef kvs) ≡ output_of reducef key (values_of key kvs)
  unfolding reduce_runs
  outputs_for-reduce_runs zero reducef key [] le sorted = refl
  outputs_for-reduce_runs zero reducef key (kv ∷ kvs) le sorted = absurd (omega arith)
  outputs_for-reduce_runs (suc rounds) reducef key [] le sorted = refl
  outputs_for-reduce_runs (suc rounds) reducef key (kv ∷ kvs) le (later, sorted) =
      let rest =
        outputs_for-reduce_runs rounds reducef key (take_run kv.key kvs).1
          (omega (arith, length-take_run kv.key kvs)) (take_run-Ascending kv.key kvs sorted) in
      elim (Bool-cases (keys.eqb kv.key key)) [
        | inl same ↦
            let e : kv.key ≡ key = eqb_true kv.key key same in
            let values : (take_run kv.key kvs).0 ≡ values_of key kvs =
              take_run-values kv.key kvs later sorted ∙ ap (λ k. values_of k kvs) e in
            let left : values_of key (take_run kv.key kvs).1 ≡ [] =
              ap (λ k. values_of k (take_run kv.key kvs).1) (sym e)
              ∙ take_run-none_left kv.key kvs later sorted in
            rw same (
              ap₂ (λ a b. a ∷ b) (ap₂ (λ k vs. reducef k (kv.value ∷ vs)) e values)
                (rest ∙ ap (output_of reducef key) left))
        | inr off ↦ rw off (rest ∙ ap (output_of reducef key) (take_run-others kv.key key kvs off))
      ]
