-- ===== src/MapReduce/Job/Reporting.antt =====
-- mr/worker.go with mr/coordinator.go: a worker does a map task and reports its files, and the
-- coordinator gives them to the reduce tasks.
use mathlib.Core.Path.{ap₂}
use cs_350_boston_u.Base.{
  ℕ, zero, suc, ◌+◌, ◌≤◌, ◌<◌, ◌==◌, leb, ltb, ◌≡◌, refl, ap, ◌∙◌, Bool, Bool-cases, inl, inr, true,
  false, ◌&&◌, some, List, [], ◌∷◌, length, get_elem?, if◌then◌else◌, Returns, Returns-map, arith,
}
use cs_350_boston_u.Base.Int.{pos, eqb_ℤ}
use cs_350_boston_u.Base.Comparable.{Comparable}
use cs_350_boston_u.MapReduce.Coordinator.{
  Status, Task, Coordinator, ReportTaskDoneArgs, report_task_done, all_map_tasks_done,
  all_reduce_tasks_done,
}
use cs_350_boston_u.MapReduce.Coordinator.Reports.{with_files, Named, chosen, report_task_done_map}
use cs_350_boston_u.MapReduce.Worker.{
  KeyValue, Formats, Disk, Turn, file_names, do_map, worker_turn,
}
use cs_350_boston_u.MapReduce.Worker.Files.{Reads}
use cs_350_boston_u.MapReduce.Job.{map_turn}

module _ {K V F : Type 0} (formats : Formats K V F) (reads : Reads formats) where
  pub file_names-Named :
      (rounds i task n : ℕ)
      → i + rounds ≤ n
      → Named formats.scan n (file_names formats rounds i task)
  unfolding file_names
  file_names-Named zero i task n le = tt
  file_names-Named (suc rounds) i task n le = (
    (pos task, i, reads.scan-file_name task i, omega arith),
    file_names-Named rounds (suc i) task n (omega arith),
  )

  pub chosen-file_names :
      (rounds i task k : ℕ)
      → chosen formats.scan k (file_names formats rounds i task)
        ≡ (if leb i k && ltb k (i + rounds) then formats.file_name task k ∷ [] else [])
  unfolding file_names
  chosen-file_names zero i task k = ground arith
  chosen-file_names (suc rounds) i task k =
      let rest = chosen-file_names rounds (suc i) task k in
      rw (reads.scan-file_name task i) (elim (Bool-cases (eqb_ℤ (pos i) (pos k))) [
        | inl same ↦
            let e : i ≡ k = ground (arith, same) in
            let found : (leb i k && ltb k (i + suc rounds)) ≡ true = ground (arith, e) in
            let over : (leb (suc i) k && ltb k (suc i + rounds)) ≡ false = ground (arith, e) in
            rw (same, found) (ap₂ (λ a b. formats.file_name task a ∷ b) e (rest ∙ rw over refl))
        | inr off ↦
            let eq : (leb i k && ltb k (i + suc rounds))
                ≡ (leb (suc i) k && ltb k (suc i + rounds)) =
              ground (arith, off) in
            rw (off, eq) rest
      ])

module _ {K V F : Type 0} (formats : Formats K V F) (c : Coordinator F) (i j k : ℕ)
    (m t : Task F) where
  -- Map task `i` is completed, map task `j` is as it was, and reduce task `k` has one file more.
  abbrev Recorded : Coordinator F × Bool × Bool → Type 0
  Recorded o =
      (get_elem? o.0.map_tasks i ≡ some (record m { status = Status.completed }))
      × (get_elem? o.0.map_tasks j ≡ get_elem? c.map_tasks j)
      × (get_elem? o.0.reduce_tasks k ≡ some (with_files t (formats.file_name i k ∷ [])))
      × (o.1 ≡ false)
      × (o.2 ≡ false)

  -- The worker reports, and the coordinator records it.
  abbrev pub Reported : Disk K V F × Turn F → Type 0
  Reported r = elim r.1 [
    | Turn.reports args ↦ Returns Recorded (report_task_done formats.scan c args)
    | _ ↦ ⊥
  ]

module _ {K V F : Type 0} ⦃keys : Comparable K⦄ ⦃names : Comparable F⦄ (formats : Formats K V F)
    (mapf : F → List ℕ → List (KeyValue K V)) (reducef : K → List V → V) where
  -- A worker that is handed map task `i`, whose input file is there, does not fail and reports; and the
  -- coordinator, while the job goes on, takes the report without an error: every file name in it is that
  -- of a reduce task that exists, reduce task `k` gets the one file `mr-i-k.json`, task `i` is completed,
  -- and any other map task `j` is as it was.
  pub worker_turn-report_task_done :
      (reads : Reads formats) (c : Coordinator F) (d : Disk K V F) (input : ℕ → F)
      (content : List ℕ) (i j k : ℕ) (m t : Task F)
      → d.files (input i) ≡ some content
      → (all_map_tasks_done c && all_reduce_tasks_done c) ≡ false
      → get_elem? c.map_tasks i ≡ some m
      → i < length c.map_tasks
      → (i == j) ≡ false
      → get_elem? c.reduce_tasks k ≡ some t
      → k < length c.reduce_tasks
      → Returns
          (Reported formats c i j k m t)
          (worker_turn formats mapf reducef (map_turn input (length c.reduce_tasks) i).0 d)
  unfolding worker_turn do_map
  worker_turn-report_task_done reads c d input content i j k m t there on at lt other task lt' =
      let n = length c.reduce_tasks in
      let args : ReportTaskDoneArgs F = record {
        task_type = pos 0;
        task_index = pos i;
        intermediate_filenames = file_names formats n 0 i;
      } in
      let in_range : (leb 0 k && ltb k (0 + n)) ≡ true = ground (arith, lt') in
      let mine : chosen formats.scan k (file_names formats n 0 i) ≡ formats.file_name i k ∷ [] =
        chosen-file_names formats reads n 0 i k ∙ rw in_range refl in
      rw there (
        Returns-map {Q = Recorded formats c i j k m t} (report_task_done formats.scan c args)
          (λ o h. (h.0, h.1, h.2 ∙ ap (λ fs. some (with_files t fs)) mine, h.3, h.4))
          (report_task_done_map formats.scan c args i j k m t refl refl on at lt other task
            (file_names-Named formats reads n 0 i n (omega arith))))
