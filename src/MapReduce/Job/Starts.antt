-- ===== src/MapReduce/Job/Starts.antt =====
-- mr/coordinator.go: the coordinator that `MakeCoordinator` sets up, at the start of a job.
use cs_350_boston_u.Base.{
  ℕ, zero, suc, ◌<◌, ◌==◌, ==_iff, ltb, ◌≡◌, ◌⊎◌, refl, sym, ap, ◌∙◌, true, false, Bool-cases, inl,
  inr, List, [], ◌∷◌, ◌++◌, map, length, length-append, get_elem?, some, arith,
}
use cs_350_boston_u.MapReduce.Coordinator.{Status, Task, map_tasks_from, reduce_tasks_from}
use cs_350_boston_u.MapReduce.Job.{listed}
use cs_350_boston_u.MapReduce.Job.Progress.{AtTask, Progress}
use cs_350_boston_u.MapReduce.Job.Filing.{upto, map_snoc}

module _ {A : Type 0} where
  get_elem?-snoc : (xs : List A) (y : A) → get_elem? (xs ++ y ∷ []) (length xs) ≡ some y
  get_elem?-snoc [] y = refl
  get_elem?-snoc (x ∷ xs) y = get_elem?-snoc xs y

  get_elem?-append :
      (xs ys : List A) (i : ℕ) → i < length xs → get_elem? (xs ++ ys) i ≡ get_elem? xs i
  get_elem?-append [] ys i lt = absurd (omega arith)
  get_elem?-append (x ∷ xs) ys zero lt = refl
  get_elem?-append (x ∷ xs) ys (suc i) lt = get_elem?-append xs ys i (omega arith)

  length-map-upto : (f : ℕ → A) (m : ℕ) → length (map f (upto m)) ≡ m
  length-map-upto f zero = refl
  length-map-upto f (suc m) =
      ap length (map_snoc f (upto m) m)
      ∙ length-append (map f (upto m)) (f m ∷ [])
      ∙ omega (arith, length-map-upto f m)

  get_elem?-map-upto : (f : ℕ → A) (m i : ℕ) → i < m → get_elem? (map f (upto m)) i ≡ some (f i)
  get_elem?-map-upto f zero i lt = absurd (omega arith)
  get_elem?-map-upto f (suc m) i lt =
      let len = length-map-upto f m in
      ap (λ xs. get_elem? xs i) (map_snoc f (upto m) m) ∙ elim (Bool-cases (m == i)) [
        | inl last ↦
            let e : m ≡ i = (==_iff m i).0 last in
            ap (get_elem? (map f (upto m) ++ f m ∷ [])) (sym e ∙ sym len)
            ∙ get_elem?-snoc (map f (upto m)) (f m)
            ∙ ap (λ k. some (f k)) e
        | inr other ↦
            get_elem?-append (map f (upto m)) (f m ∷ []) i (ground (arith, other, lt, len))
            ∙ get_elem?-map-upto f m i (ground (arith, other, lt))
      ]

pub upto-ne-nil : (m : ℕ) → 0 < m → (upto m ≡ []) → ⊥
upto-ne-nil zero pos_m empty = omega arith
upto-ne-nil (suc m) pos_m empty =
    absurd (omega (arith, ap length empty, length-append (upto m) (m ∷ [])))

pub listed-upto : (m t : ℕ) → listed t (upto m) ≡ true → t < m
listed-upto zero t h = cc
listed-upto (suc m) t h = elim (listed-snoc (upto m) h) [
  | inl before ↦ omega (arith, listed-upto m t before)
  | inr last ↦ omega arith
]
  where
    listed-snoc : (xs : List ℕ) → listed t (xs ++ m ∷ []) ≡ true → (listed t xs ≡ true) ⊎ (t ≡ m)
    listed-snoc [] l = inr (ground (arith, l))
    listed-snoc (x ∷ xs) l = elim (Bool-cases (t == x)) [
      | inl here ↦ inl (rw here refl)
      | inr other ↦ elim (listed-snoc xs (ground (arith, other, l))) [
        | inl later ↦ inl (rw (other, later) refl)
        | inr last ↦ inr last
      ]
    ]

length-reduce_tasks_from : (F : Type 0) (s n : ℕ) → length (reduce_tasks_from {F = F} s n) ≡ n
unfolding reduce_tasks_from
length-reduce_tasks_from F s zero = refl
length-reduce_tasks_from F s (suc n) = ap suc (length-reduce_tasks_from F (suc s) n)

module _ {F : Type 0} where
  abbrev Starting : List F → Task F → Type 0
  Starting files u = (u.all_filenames ≡ files) × (u.status ≡ Status.unassigned) × (u.start_time ≡ 0)

  get_elem?-map_tasks_from :
      (s : ℕ) (files : List F) (i : ℕ) (x : F)
      → get_elem? files i ≡ some x
      → (u : Task F) × (get_elem? (map_tasks_from s files) i ≡ some u) × Starting (x ∷ []) u
  unfolding map_tasks_from
  get_elem?-map_tasks_from s [] i x h = cc
  get_elem?-map_tasks_from s (f ∷ files) zero x h = (_, refl, (ap (λ y. y ∷ []) (cc h), refl, refl))
  get_elem?-map_tasks_from s (f ∷ files) (suc i) x h = get_elem?-map_tasks_from (suc s) files i x h

  length-map_tasks_from : (s : ℕ) (files : List F) → length (map_tasks_from s files) ≡ length files
  unfolding map_tasks_from
  length-map_tasks_from s [] = refl
  length-map_tasks_from s (f ∷ files) = ap suc (length-map_tasks_from (suc s) files)

  get_elem?-reduce_tasks_from :
      (s n i : ℕ)
      → i < n
      → (u : Task F) × (get_elem? (reduce_tasks_from s n) i ≡ some u) × Starting [] u
  unfolding reduce_tasks_from
  get_elem?-reduce_tasks_from s zero i lt = absurd (omega arith)
  get_elem?-reduce_tasks_from s (suc n) zero lt = (_, refl, (refl, refl, refl))
  get_elem?-reduce_tasks_from s (suc n) (suc i) lt =
      get_elem?-reduce_tasks_from (suc s) n i (omega arith)

  at_start : (i : ℕ) (u : Task F) (files : List F) → Starting files u → AtTask 0 i u
  at_start i u files (_, fresh, zero_time) =
      let none_before : ltb i 0 ≡ false = ground arith in rw none_before (fresh, zero_time)

  pub map_tasks_from-Progress :
      (input : ℕ → F) (m : ℕ)
      → Progress 0 m (λ i. input i ∷ []) (map_tasks_from 0 (map input (upto m)))
  map_tasks_from-Progress input m = (
    length-map_tasks_from 0 (map input (upto m)) ∙ length-map-upto input m,
    λ i lt.
        let (u, there, start) =
          get_elem?-map_tasks_from 0 (map input (upto m)) i (input i)
            (get_elem?-map-upto input m i lt) in
        (u, there, start.0, at_start i u (input i ∷ []) start),
  )

  pub reduce_tasks_from-Progress : (n : ℕ) → Progress 0 n (λ j. []) (reduce_tasks_from {F = F} 0 n)
  reduce_tasks_from-Progress n = (
    length-reduce_tasks_from F 0 n,
    λ i lt.
        let (u, there, start) = get_elem?-reduce_tasks_from 0 n i lt in
        (u, there, start.0, at_start i u [] start),
  )
