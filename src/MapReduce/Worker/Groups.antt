-- ===== src/MapReduce/Worker/Groups.antt =====
-- mr/worker.go, `doReduce`: the lines that it prints for a key, from the pairs that it reads.
use mathlib.Core.Path.{ap₂}
use mathlib.Core.List.{append-nil, append_assoc}
use cs_350_boston_u.Base.{
  ◌≡◌, refl, sym, ap, ◌∙◌, true, false, List, [], ◌∷◌, ◌++◌, if◌then◌else◌, arith, Bool-cases, inl,
  inr,
}
use cs_350_boston_u.Base.Comparable.{Comparable, eqb_true}
use cs_350_boston_u.MapReduce.Worker.{KeyValue, add_value, add_values, output_lines}
use cs_350_boston_u.MapReduce.Keys.{values_of, outputs_for, output_of}

module _ {V : Type 0} where
  abbrev entry_of : List V → List (List V)
  entry_of [] = []
  entry_of (v ∷ values) = (v ∷ values) ∷ []

  unfoldable append_first : V → List (List V) → List (List V)
  append_first v [] = (v ∷ []) ∷ []
  append_first v (vs ∷ rest) = (vs ++ v ∷ []) ∷ rest

  append_first-entry_of :
      (v : V) (vs : List V) → append_first v (entry_of vs) ≡ entry_of (vs ++ v ∷ [])
  unfolding append_first
  append_first-entry_of v [] = refl
  append_first-entry_of v (u ∷ vs) = refl

module _ {K V : Type 0} where
  unfoldable outputs_of_entries : (K → List V → V) → K → List (List V) → List V
  outputs_of_entries reducef key [] = []
  outputs_of_entries reducef key (vs ∷ rest) = reducef key vs ∷ outputs_of_entries reducef key rest

  outputs_of_entries-entry_of :
      (reducef : K → List V → V) (key : K) (vs : List V)
      → outputs_of_entries reducef key (entry_of vs) ≡ output_of reducef key vs
  unfolding outputs_of_entries
  outputs_of_entries-entry_of reducef key [] = refl
  outputs_of_entries-entry_of reducef key (v ∷ vs) = refl

module _ {K V : Type 0} ⦃keys : Comparable K⦄ where
  -- The lists of the key's entries.
  abbrev entries_for : K → List (K × List V) → List (List V)
  entries_for key [] = []
  entries_for key ((k, values) ∷ m) =
      if keys.eqb k key then values ∷ entries_for key m else entries_for key m

  entries_for-add_value :
      (key k : K) (v : V) (m : List (K × List V))
      → entries_for key (add_value k v m)
        ≡ (if keys.eqb k key then append_first v (entries_for key m) else entries_for key m)
  unfolding add_value append_first
  entries_for-add_value key k v [] = ground arith
  entries_for-add_value key k v ((k', vs) ∷ m) = elim (Bool-cases (keys.eqb k k')) [
    | inl same ↦ elim (Bool-cases (keys.eqb k' key)) [
      | inl at ↦
          let there : keys.eqb k key ≡ true = rw (eqb_true k k' same) at in
          rw (same, at, there) refl
      | inr off ↦
          let apart : keys.eqb k key ≡ false = rw (eqb_true k k' same) off in
          rw (same, off, apart) refl
    ]
    | inr other ↦ elim (Bool-cases (keys.eqb k' key)) [
      | inl at ↦
          let apart : keys.eqb k key ≡ false = rw (sym (eqb_true k' key at)) other in
          rw (other, at, apart) (ap (λ r. vs ∷ r) (entries_for-add_value key k v m ∙ rw apart refl))
      | inr off ↦ rw (other, off) (entries_for-add_value key k v m)
    ]
  ]

  pub entries_for-add_values :
      (key : K) (kvs : List (KeyValue K V)) (m : List (K × List V)) (vs : List V)
      → entries_for key m ≡ entry_of vs
      → entries_for key (add_values kvs m) ≡ entry_of (vs ++ values_of key kvs)
  unfolding add_values
  entries_for-add_values key [] m vs h = h ∙ ap entry_of (sym (append-nil vs))
  entries_for-add_values key (kv ∷ kvs) m vs h = elim (Bool-cases (keys.eqb kv.key key)) [
    | inl same ↦ rw same (
        entries_for-add_values key kvs (add_value kv.key kv.value m) (vs ++ kv.value ∷ []) (
          entries_for-add_value key kv.key kv.value m
          ∙ rw (same, h) (append_first-entry_of kv.value vs))
        ∙ ap entry_of (append_assoc vs (kv.value ∷ []) (values_of key kvs)))
    | inr other ↦ rw other (
        entries_for-add_values key kvs (add_value kv.key kv.value m) vs
          (entries_for-add_value key kv.key kv.value m ∙ rw other h))
  ]

  outputs_for-output_lines :
      (reducef : K → List V → V) (key : K) (m : List (K × List V))
      → outputs_for key (output_lines reducef m)
        ≡ outputs_of_entries reducef key (entries_for key m)
  unfolding output_lines outputs_of_entries
  outputs_for-output_lines reducef key [] = refl
  outputs_for-output_lines reducef key ((k, vs) ∷ m) = elim (Bool-cases (keys.eqb k key)) [
    | inl same ↦ rw same (
        ap₂ (λ a b. reducef a vs ∷ b) (eqb_true k key same)
          (outputs_for-output_lines reducef key m))
    | inr other ↦ rw other (outputs_for-output_lines reducef key m)
  ]

  -- The outputs of the lines for a key are the plugin's output for the values of the key in the pairs,
  -- or none where there are no such pairs.
  pub outputs_for-output_lines-add_values :
      (reducef : K → List V → V) (key : K) (kvs : List (KeyValue K V))
      → outputs_for key (output_lines reducef (add_values kvs []))
        ≡ output_of reducef key (values_of key kvs)
  outputs_for-output_lines-add_values reducef key kvs =
      outputs_for-output_lines reducef key (add_values kvs [])
      ∙ ap (outputs_of_entries reducef key) (entries_for-add_values key kvs [] [] refl)
      ∙ outputs_of_entries-entry_of reducef key (values_of key kvs)
