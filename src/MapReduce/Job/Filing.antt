-- ===== src/MapReduce/Job/Filing.antt =====
-- mr/coordinator.go, `ReportTaskDone` of a map task, when a worker reports its files: each reduce task gets
-- one more.
use cs_350_boston_u.Base.{
  ℕ, zero, suc, ◌<◌, ltb, ◌≡◌, refl, sym, subst, ap, ◌∙◌, Bool-cases, inl, inr, List, [], ◌∷◌, ◌++◌,
  map, length, length-set, get_elem?, get_elem?-some, set, some, Outcome, returns, panics, blocks,
  Returns, Returns-map, Option, arith,
}
use cs_350_boston_u.Base.Int.{ℤ}
use cs_350_boston_u.MapReduce.Coordinator.{Task, add_files}
use cs_350_boston_u.MapReduce.Coordinator.Reports.{
  with_files, chosen, Named, add_files-suc, add_files-chosen,
}
use cs_350_boston_u.MapReduce.Job.Progress.{AtTask, Progress}

-- The first numbers.
abbrev pub upto : ℕ → List ℕ
upto zero = []
upto (suc k) = upto k ++ k ∷ []

pub map_snoc :
    {A B : Type 0} (f : A → B) (xs : List A) (y : A) → map f (xs ++ y ∷ []) ≡ map f xs ++ f y ∷ []
map_snoc f [] y = refl
map_snoc f (x ∷ xs) y = ap (λ r. f x ∷ r) (map_snoc f xs y)

Returns-each :
    {A : Type 0} (P : A → Type 0) (Q : ℕ → A → Type 0) (o : Outcome A)
    → Returns P o
    → ((j : ℕ) → Returns (Q j) o)
    → Returns (λ a. P a × ((j : ℕ) → Q j a)) o
Returns-each P Q (returns a) h each = (h, each)
Returns-each P Q panics h each = elim h [ ]
Returns-each P Q blocks h each = elim h [ ]

module _ {F : Type 0} (scan : F → Option (ℤ × ℤ)) where
  add_files-length :
      (files : List F) (ts : List (Task F))
      → Named scan (length ts) files
      → Returns (λ ts'. length ts' ≡ length ts) (add_files scan files ts)
  unfolding add_files
  add_files-length [] ts named = refl
  add_files-length (f ∷ files) ts ((x, y, name, lt), named) =
      let (u, there) = get_elem?-some ts y lt in
      let ts1 = set ts y (with_files u (f ∷ [])) in
      let len : length ts1 ≡ length ts = length-set ts y (with_files u (f ∷ [])) in
      subst (Returns (λ ts'. length ts' ≡ length ts))
        (sym (add_files-suc scan f files ts x y u name there))
        (Returns-map (add_files scan files ts1) (λ ts' h. h ∙ len)
          (add_files-length files ts1 (subst (λ n. Named scan n files) (sym len) named)))

  pub add_files-Progress :
      (k n : ℕ) (before : ℕ → List F) (new : ℕ → F) (files : List F) (ts : List (Task F))
      → Progress k n before ts
      → Named scan n files
      → ((j : ℕ) → j < n → chosen scan j files ≡ new j ∷ [])
      → Returns (Progress k n (λ j. before j ++ new j ∷ [])) (add_files scan files ts)
  add_files-Progress k n before new files ts (len, at) named gets =
      let named' : Named scan (length ts) files = subst (λ l. Named scan l files) (sym len) named in
      let same_length =
        Returns-map {Q = λ ts'. length ts' ≡ n} (add_files scan files ts) (λ ts' h. h ∙ len)
          (add_files-length files ts named') in
      Returns-each (λ ts'. length ts' ≡ n)
        (λ j ts'.
          j < n
          → (u : Task F) × (get_elem? ts' j ≡ some u)
            × (u.all_filenames ≡ before j ++ new j ∷ [])
            × AtTask k j u)
        (add_files scan files ts) same_length
        (λ j. elim (Bool-cases (ltb j n)) [
          | inr out ↦
              Returns-map (add_files scan files ts) (λ ts' h lt. absurd (ground (arith, out, lt)))
                same_length
          | inl in_range ↦
              let (u, there, names, state) = at j (ground (arith, in_range)) in
              Returns-map (add_files scan files ts)
                (λ ts' h lt.
                  (with_files u (chosen scan j files), h, rw (gets j lt, names) refl, state))
                (add_files-chosen scan files ts j u named' there)
        ])
