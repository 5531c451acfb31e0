-- ===== src/MapReduce/Job/Progress.antt =====
-- mr/coordinator.go: the tasks of a phase that go in their order, the first ones completed.
use cs_350_boston_u.Base.{
  ℕ, suc, ◌<◌, ◌==◌, ==_iff, ltb, ◌≡◌, sym, subst, ap, ◌∙◌, true, false, Bool-cases, inl, inr, List,
  length, get_elem?, get_elem?-set_self, length-set, set, some, if◌then◌else◌, arith,
}
use cs_350_boston_u.MapReduce.Coordinator.{Status, Task, all_completed, begun, hand_out}
use cs_350_boston_u.MapReduce.Coordinator.Handing.{
  Ready, Handed, hand_out_cases, all_completed-each,
}
use cs_350_boston_u.MapReduce.Coordinator.Reports.{get_elem?-set_other}

module _ {F : Type 0} where
  -- The tasks below `k` are completed, and the others are unassigned.
  abbrev pub AtTask : ℕ → ℕ → Task F → Type 0
  AtTask k i u =
      if ltb i k
      then u.status ≡ Status.completed
      else (u.status ≡ Status.unassigned) × (u.start_time ≡ 0)

  abbrev pub Progress : ℕ → ℕ → (ℕ → List F) → List (Task F) → Type 0
  Progress k m files ts =
      (length ts ≡ m)
      × ((i : ℕ)
          → i < m
          → (u : Task F) × (get_elem? ts i ≡ some u) × (u.all_filenames ≡ files i) × AtTask k i u)

  -- The task that is handed out is the first that is unassigned.
  Handed-first :
      (now k m k' : ℕ) (files : ℕ → List F) (ts ts' : List (Task F)) (u t : Task F)
      → 10 < now
      → k < m
      → Progress k m files ts
      → get_elem? ts k ≡ some u
      → Ready now u
      → Handed now k' t ts ts'
      → k' ≡ k
  Handed-first now k m k' files ts ts' u t late lt (len, at) there ready h =
      elim (Bool-cases (ltb k' k)) [
        | inl before ↦
            let (v, there', _, done_already) = at k' (ground (arith, before, lt)) in
            let over : v.status ≡ Status.completed =
              subst
                (λ b.
                  if b
                  then v.status ≡ Status.completed
                  else (v.status ≡ Status.unassigned) × (v.start_time ≡ 0))
                before done_already in
            absurd (cc (h.at, h.ready.0, there', over))
        | inr not_before ↦ elim (Bool-cases (ltb k k')) [
          | inl after ↦ absurd (h.first k u (ground (arith, after)) there ready)
          | inr not_after ↦ ground (arith, not_before, not_after)
        ]
      ]

  -- The next task is handed out.
  pub Progress-hands :
      (now k m : ℕ) (files : ℕ → List F) (ts : List (Task F))
      → 10 < now
      → k < m
      → Progress k m files ts
      → (u : Task F) × (get_elem? ts k ≡ some u)
        × (u.all_filenames ≡ files k)
        × (u.status ≡ Status.unassigned)
        × (hand_out now 0 ts ≡ some (k, begun now u, set ts k (begun now u)))
  Progress-hands now k m files ts late lt (len, at) =
      let (u, there, same, state) = at k lt in
      let here : ltb k k ≡ false = ground arith in
      let (fresh, start) : (u.status ≡ Status.unassigned) × (u.start_time ≡ 0) =
        subst
          (λ b.
            if b
            then u.status ≡ Status.completed
            else (u.status ≡ Status.unassigned) × (u.start_time ≡ 0))
          here state in
      let ready : Ready now u = (fresh, omega (arith, start, late)) in
      (
        u,
        there,
        same,
        fresh,
        elim (hand_out_cases now 0 ts) [
          | inr (run, rest) ↦ absurd (rest k u there ready)
          | inl (k', t, ts', run, h) ↦
              let e : k' ≡ k =
                Handed-first now k m k' files ts ts' u t late lt (len, at) there ready h in
              let old : h.old ≡ u = cc (h.at, there, e) in
              let t_eq : t ≡ begun now u = h.begins ∙ ap (begun now) old in
              run
              ∙ rw (h.new_tasks, t_eq, e)
                  (ap (λ n. some (n, begun now u, set ts k (begun now u))) (omega arith))
        ],
      )

  -- When the task is completed, the next one is.
  pub Progress-completes :
      (k m : ℕ) (files : ℕ → List F) (ts : List (Task F)) (u v : Task F)
      → k < m
      → Progress k m files ts
      → get_elem? ts k ≡ some u
      → v.all_filenames ≡ u.all_filenames
      → v.status ≡ Status.completed
      → Progress (suc k) m files (set ts k v)
  Progress-completes k m files ts u v lt (len, at) there same complete = (
    length-set ts k v ∙ len,
    λ i lt'. elim (Bool-cases (k == i)) [
      | inl here ↦
          let e : k ≡ i = (==_iff k i).0 here in
          let (w, there', files_eq, _) = at k lt in
          let w_eq : w ≡ u = cc (there, there') in
          let done_now : ltb i (suc k) ≡ true = ground (arith, e) in
          (
            v,
            subst (λ n. get_elem? (set ts k v) n ≡ some v) e
                (get_elem?-set_self ts k v (omega (arith, len))),
            same ∙ ap (λ x. x.all_filenames) (sym w_eq) ∙ files_eq ∙ ap files e,
            rw done_now complete,
          )
      | inr other ↦
          let (w, there', files_eq, state) = at i lt' in
          let eq : ltb i (suc k) ≡ ltb i k = ground (arith, other) in
          (w, get_elem?-set_other ts k i v other ∙ there', files_eq, rw eq state)
    ],
  )

-- A task that is left keeps the job from being done.
pub not_all_completed :
    {F : Type 0} (ts : List (Task F)) (k : ℕ) (u : Task F)
    → get_elem? ts k ≡ some u
    → ((u.status ≡ Status.completed) → ⊥)
    → all_completed ts ≡ false
not_all_completed ts k u there left = elim (Bool-cases (all_completed ts)) [
  | inl all ↦ absurd (left (all_completed-each ts all k u there))
  | inr more ↦ more
]
