-- ===== src/MapReduce/Coordinator/Reports.antt =====
-- mr/coordinator.go, `ReportTaskDone` of a map task: the task is completed, and its files go to the
-- reduce tasks that their names ask for.
use mathlib.Core.List.{append-nil}
use cs_350_boston_u.Base.{
  ℕ, zero, suc, ◌<◌, ◌==◌, ◌≡◌, refl, sym, ap, ◌∙◌, Bool, false, ◌&&◌, Option, none, some, List, [],
  ◌∷◌, ◌++◌, length, length-set, get_elem?, get_elem?-some, get_elem?-set_self, set, if◌then◌else◌,
  returns, Returns, Returns-map, Returns->>=, ◌>>=◌, arith, Bool-cases, ==_iff, inl, inr, subst,
}
use cs_350_boston_u.Base.Int.{ℤ, pos, eqb_ℤ}
use cs_350_boston_u.MapReduce.Coordinator.{
  Status, Task, Coordinator, ReportTaskDoneArgs, complete, add_files, extract_reduce_task_index,
  report_task_done, all_map_tasks_done, all_reduce_tasks_done,
}

append_step : {A : Type 0} (xs : List A) (y : A) (zs : List A) → (xs ++ y ∷ []) ++ zs ≡ xs ++ y ∷ zs
append_step [] y zs = refl
append_step (x ∷ xs) y zs = ap (λ r. x ∷ r) (append_step xs y zs)

pub get_elem?-set_other :
    {A : Type 0} (xs : List A) (i k : ℕ) (v : A)
    → (i == k) ≡ false
    → get_elem? (set xs i v) k ≡ get_elem? xs k
get_elem?-set_other [] i k v other = refl
get_elem?-set_other (x ∷ xs) zero zero v other = cc
get_elem?-set_other (x ∷ xs) zero (suc k) v other = refl
get_elem?-set_other (x ∷ xs) (suc i) zero v other = refl
get_elem?-set_other (x ∷ xs) (suc i) (suc k) v other =
    get_elem?-set_other xs i k v (ground (arith, other))

abbrev pub with_files : {F : Type 0} → Task F → List F → Task F
with_files t files = record t { all_filenames = t.all_filenames ++ files }

with_files-twice :
    {F : Type 0} (t : Task F) (f : F) (files : List F)
    → with_files (with_files t (f ∷ [])) files ≡ with_files t (f ∷ files)
with_files-twice t f files =
    ap (λ fs. record t { all_filenames = fs }) (append_step t.all_filenames f files)

module _ {F : Type 0} (scan : F → Option (ℤ × ℤ)) where
  -- Every name is one of a reduce task that there is.
  abbrev pub Named : ℕ → List F → Type 0
  Named n [] = Unit
  Named n (f ∷ files) = ((x : ℤ) × (y : ℕ) × (scan f ≡ some (x, pos y)) × (y < n)) × Named n files

  -- The files for reduce task `k`, in their order.
  abbrev pub chosen : ℕ → List F → List F
  chosen k [] = []
  chosen k (f ∷ files) = elim (scan f) [
    | none ↦ chosen k files
    | some (x, y) ↦ if eqb_ℤ y (pos k) then f ∷ chosen k files else chosen k files
  ]

  chosen-suc :
      (k : ℕ) (f : F) (files : List F) (x : ℤ) (y : ℕ)
      → scan f ≡ some (x, pos y)
      → chosen k (f ∷ files) ≡ (if y == k then f ∷ chosen k files else chosen k files)
  chosen-suc k f files x y name = ground (arith, name)

  pub add_files-suc :
      (f : F) (files : List F) (ts : List (Task F)) (x : ℤ) (y : ℕ) (u : Task F)
      → scan f ≡ some (x, pos y)
      → get_elem? ts y ≡ some u
      → add_files scan (f ∷ files) ts ≡ add_files scan files (set ts y (with_files u (f ∷ [])))
  unfolding add_files extract_reduce_task_index
  add_files-suc f files ts x y u name there = ground (arith, name, there)

  -- The entry of task `k` once the first file has gone to task `y`, and what it owes the first file.
  first_file :
      (f : F) (files : List F) (ts : List (Task F)) (k : ℕ) (t : Task F) (x : ℤ) (y : ℕ)
      (u : Task F)
      → scan f ≡ some (x, pos y)
      → y < length ts
      → get_elem? ts y ≡ some u
      → get_elem? ts k ≡ some t
      → (t' : Task F) × (get_elem? (set ts y (with_files u (f ∷ []))) k ≡ some t')
        × (with_files t' (chosen k files) ≡ with_files t (chosen k (f ∷ files)))
  first_file f files ts k t x y u name lt there at = elim (Bool-cases (y == k)) [
    | inl same ↦
        let e : y ≡ k = (==_iff y k).0 same in
        let both : some u ≡ some t = sym there ∙ ap (get_elem? ts) e ∙ at in
        let eq : u ≡ t = cc both in
        (
          with_files u (f ∷ []),
          subst (λ n. get_elem? (set ts y (with_files u (f ∷ []))) n ≡ some (with_files u (f ∷ [])))
              e (get_elem?-set_self ts y (with_files u (f ∷ [])) lt),
          with_files-twice u f (chosen k files)
              ∙ ap (λ v. with_files v (f ∷ chosen k files)) eq
              ∙ ap (with_files t) (sym (chosen-suc k f files x y name ∙ rw same refl)),
        )
    | inr other ↦ (
      t,
      get_elem?-set_other ts y k (with_files u (f ∷ [])) other ∙ at,
      ap (with_files t) (sym (chosen-suc k f files x y name ∙ rw other refl)),
    )
  ]

  pub add_files-chosen :
      (files : List F) (ts : List (Task F)) (k : ℕ) (t : Task F)
      → Named (length ts) files
      → get_elem? ts k ≡ some t
      → Returns
          (λ ts'. get_elem? ts' k ≡ some (with_files t (chosen k files)))
          (add_files scan files ts)
  unfolding add_files
  add_files-chosen [] ts k t named at =
      at ∙ ap (λ fs. some (record t { all_filenames = fs })) (sym (append-nil t.all_filenames))
  add_files-chosen (f ∷ files) ts k t ((x, y, name, lt), named) at =
      let (u, there) = get_elem?-some ts y lt in
      let (t', at', owed) = first_file f files ts k t x y u name lt there at in
      let named' : Named (length (set ts y (with_files u (f ∷ [])))) files =
        subst (λ n. Named n files) (sym (length-set ts y (with_files u (f ∷ [])))) named in
      subst (Returns (λ ts'. get_elem? ts' k ≡ some (with_files t (chosen k (f ∷ files)))))
        (sym (add_files-suc f files ts x y u name there))
        (Returns-map (add_files scan files (set ts y (with_files u (f ∷ []))))
          (λ ts' h. h ∙ ap some owed)
          (add_files-chosen files (set ts y (with_files u (f ∷ []))) k t' named' at'))

  -- The coordinator once the map task is completed and the reduce tasks have their files.
  abbrev pub reported : Coordinator F → ℕ → Task F → List (Task F) → Coordinator F × Bool × Bool
  reported c i m reduces = (
    record c {
      map_tasks = set c.map_tasks i (record m { status = Status.completed });
      reduce_tasks = reduces;
    },
    false,
    false,
  )

  pub report_task_done-add_files :
      (c : Coordinator F) (args : ReportTaskDoneArgs F) (i : ℕ) (m : Task F)
      → args.task_type ≡ pos 0
      → args.task_index ≡ pos i
      → (all_map_tasks_done c && all_reduce_tasks_done c) ≡ false
      → get_elem? c.map_tasks i ≡ some m
      → report_task_done scan c args ≡ (do
        reduces ← add_files scan args.intermediate_filenames c.reduce_tasks
        returns (reported c i m reduces))
  unfolding report_task_done complete
  report_task_done-add_files c args i m kind index on at = ground (arith, kind, index, on, at)

  pub report_task_done_reduce :
      (c : Coordinator F) (args : ReportTaskDoneArgs F) (i : ℕ) (r : Task F)
      → args.task_type ≡ pos 1
      → args.task_index ≡ pos i
      → (all_map_tasks_done c && all_reduce_tasks_done c) ≡ false
      → get_elem? c.reduce_tasks i ≡ some r
      → report_task_done scan c args
        ≡ returns (
          record c { reduce_tasks = set c.reduce_tasks i (record r { status = Status.completed }) },
          false,
          false,
        )
  unfolding report_task_done complete
  report_task_done_reduce c args i r kind index on at = ground (arith, kind, index, on, at)

  -- At the report of a map task that exists, while the job goes on, with files named after reduce
  -- tasks that exist, the handler returns with no error; the task is completed, every other map
  -- task is as it was, and every reduce task has got the files that are named after it, in their
  -- order, and is otherwise as it was.
  pub report_task_done_map :
      (c : Coordinator F) (args : ReportTaskDoneArgs F) (i j k : ℕ) (m : Task F) (t : Task F)
      → args.task_type ≡ pos 0
      → args.task_index ≡ pos i
      → (all_map_tasks_done c && all_reduce_tasks_done c) ≡ false
      → get_elem? c.map_tasks i ≡ some m
      → i < length c.map_tasks
      → (i == j) ≡ false
      → get_elem? c.reduce_tasks k ≡ some t
      → Named (length c.reduce_tasks) args.intermediate_filenames
      → Returns
          (λ o.
            (get_elem? o.0.map_tasks i ≡ some (record m { status = Status.completed }))
            × (get_elem? o.0.map_tasks j ≡ get_elem? c.map_tasks j)
            × (get_elem? o.0.reduce_tasks k
                ≡ some (with_files t (chosen k args.intermediate_filenames)))
            × (o.1 ≡ false)
            × (o.2 ≡ false))
          (report_task_done scan c args)
  report_task_done_map c args i j k m t kind index on at lt other there named =
      subst (Returns _) (sym (report_task_done-add_files c args i m kind index on at)) (
        Returns->>= _ _ (add_files scan args.intermediate_filenames c.reduce_tasks)
          (λ reduces. returns (reported c i m reduces))
          (add_files-chosen args.intermediate_filenames c.reduce_tasks k t named there)
          (λ reduces got. (
            get_elem?-set_self c.map_tasks i (record m { status = Status.completed }) lt,
            get_elem?-set_other c.map_tasks i j (record m { status = Status.completed }) other,
            got,
            refl,
            refl,
          )))
