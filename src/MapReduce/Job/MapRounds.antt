-- ===== src/MapReduce/Job/MapRounds.antt =====
-- mr/worker.go with mr/coordinator.go: while map tasks are left, a round does the next one.
use cs_350_boston_u.Base.{
  ℕ, suc, ◌+◌, ◌<◌, ◌==◌, ==_iff, ltb, leb, ◌≡◌, refl, sym, subst, fun_ext, set-set, bind_assoc, ap,
  ◌∙◌, true, not, ◌&&◌, Bool-cases, inl, inr, List, [], ◌∷◌, ◌++◌, map, length, get_elem?,
  get_elem?-set_self, set, some, returns, ◌>>=◌, Returns, Returns->>=, arith,
}
use cs_350_boston_u.Base.Int.{pos}
use cs_350_boston_u.Base.Comparable.{Comparable}
use cs_350_boston_u.MapReduce.Coordinator.{
  Status, TaskKind, Task, Coordinator, ReportTaskDoneArgs, request_task, all_map_tasks_done, begun,
  hand_out, reply_of, add_files,
}
use cs_350_boston_u.MapReduce.Coordinator.Handing.{request_task_gives}
use cs_350_boston_u.MapReduce.Coordinator.Reports.{chosen, report_task_done-add_files}
use cs_350_boston_u.MapReduce.Worker.{
  KeyValue, Formats, Disk, Turn, file_names, do_map, worker_turn,
}
use cs_350_boston_u.MapReduce.Worker.Files.{Reads}
use cs_350_boston_u.MapReduce.Job.{map_turn, Readable, Plain, Written}
use cs_350_boston_u.MapReduce.Job.Maps.{mapped, mapped-Readable, mapped-Written, mapped-keeps}
use cs_350_boston_u.MapReduce.Job.Reporting.{file_names-Named, chosen-file_names}
use cs_350_boston_u.MapReduce.Job.Progress.{
  Progress, Progress-hands, Progress-completes, not_all_completed,
}
use cs_350_boston_u.MapReduce.Job.Rounds.{round, round_reports, GoesOn}
use cs_350_boston_u.MapReduce.Job.Filing.{upto, map_snoc, add_files-Progress}

module _ {K V F : Type 0} ⦃keys : Comparable K⦄ ⦃names : Comparable F⦄ (formats : Formats K V F)
    (mapf : F → List ℕ → List (KeyValue K V)) (reducef : K → List V → V) (m n : ℕ) (input : ℕ → F)
    (content : ℕ → List ℕ) where
  -- Reduce task `j` has the files of the first `k` map tasks.
  abbrev pub files_upto : ℕ → ℕ → List F
  files_upto k j = map (λ t. formats.file_name t j) (upto k)

  -- `k` map tasks are done.
  abbrev pub MapPhase : ℕ → Coordinator F → Disk K V F → Type 0
  MapPhase k c d =
      Progress k m (λ i. input i ∷ []) c.map_tasks
      × Progress 0 n (files_upto k) c.reduce_tasks
      × (c.n_reduce ≡ n)
      × Readable input content m d
      × ((t : ℕ) → t < k → Written formats mapf n input content d t)

  report_of : ℕ → ReportTaskDoneArgs F
  report_of k = record {
    task_type = pos 0;
    task_index = pos k;
    intermediate_filenames = file_names formats n 0 k;
  }

  map_request :
      (now k : ℕ) (c : Coordinator F) (u : Task F)
      → get_elem? c.map_tasks k ≡ some u
      → u.status ≡ Status.unassigned
      → u.all_filenames ≡ input k ∷ []
      → c.n_reduce ≡ n
      → hand_out now 0 c.map_tasks ≡ some (k, begun now u, set c.map_tasks k (begun now u))
      → request_task now c
        ≡ (record c { map_tasks = set c.map_tasks k (begun now u) }, (map_turn input n k).0)
  map_request now k c u there fresh files same run =
      let more = not_all_completed c.map_tasks k u there (λ over. cc (fresh, over)) in
      let reply : reply_of TaskKind.map_task k (begun now u) c.n_reduce ≡ (map_turn input n k).0 =
        rw (files, same) refl in
      request_task_gives now c (k, begun now u, set c.map_tasks k (begun now u)) more run
      ∙ ap (λ r. (record c { map_tasks = set c.map_tasks k (begun now u) }, r)) reply

  map_served :
      (k : ℕ) (d : Disk K V F)
      → d.files (input k) ≡ some (content k)
      → worker_turn formats mapf reducef (map_turn input n k).0 d
        ≡ returns (mapped formats mapf n input content d k, Turn.reports (report_of k))
  unfolding worker_turn do_map report_of
  map_served k d there = rw there refl

  module _ (reads : Reads formats) where
    chosen-new :
        (k j : ℕ)
        → j < n
        → chosen formats.scan j (file_names formats n 0 k) ≡ formats.file_name k j ∷ []
    chosen-new k j lt =
        let in_range : (leb 0 j && ltb j (0 + n)) ≡ true = ground (arith, lt) in
        chosen-file_names formats reads n 0 k j ∙ rw in_range refl

    Written-mapped :
        (k : ℕ) (d : Disk K V F)
        → ((t : ℕ) → t < k → Written formats mapf n input content d t)
        → (t : ℕ) → t < suc k
        → Written formats mapf n input content (mapped formats mapf n input content d k) t
    Written-mapped k d written t lt = elim (Bool-cases (k == t)) [
      | inl here ↦
          subst (Written formats mapf n input content (mapped formats mapf n input content d k))
            ((==_iff k t).0 here) (mapped-Written formats mapf n input content reads d k)
      | inr other ↦
          mapped-keeps formats mapf n input content reads d k t
            (written t (ground (arith, other, lt)))
    ]

    map_round :
        (now k : ℕ) (c : Coordinator F) (d : Disk K V F) (u : Task F)
        → get_elem? c.map_tasks k ≡ some u
        → k < length c.map_tasks
        → u.status ≡ Status.unassigned
        → u.all_filenames ≡ input k ∷ []
        → c.n_reduce ≡ n
        → hand_out now 0 c.map_tasks ≡ some (k, begun now u, set c.map_tasks k (begun now u))
        → d.files (input k) ≡ some (content k)
        → round formats mapf reducef now c d ≡ (do
          reduces ← add_files formats.scan (file_names formats n 0 k) c.reduce_tasks
          returns (
            record c {
              map_tasks =
                  set
                    (set c.map_tasks k (begun now u))
                    k
                    (record u { status = Status.completed; start_time = now });
              reduce_tasks = reduces;
            },
            mapped formats mapf n input content d k,
            true,
          ))
    unfolding report_of all_map_tasks_done
    map_round now k c d u at lt fresh files same run there =
        let c1 : Coordinator F = record c { map_tasks = set c.map_tasks k (begun now u) } in
        let again : get_elem? c1.map_tasks k ≡ some (begun now u) =
          get_elem?-set_self c.map_tasks k (begun now u) lt in
        round_reports formats mapf reducef now c c1 d (mapped formats mapf n input content d k)
          (map_turn input n k).0 (report_of k) (map_request now k c u at fresh files same run)
          (map_served k d there)
        ∙ ap (λ o. o >>= λ r. returns (r.0, mapped formats mapf n input content d k, not r.1))
            (report_task_done-add_files formats.scan c1 (report_of k) k (begun now u) refl refl
              (rw (not_all_completed c1.map_tasks k (begun now u) again (λ over. cc)) refl) again)
        ∙ bind_assoc (add_files formats.scan (file_names formats n 0 k) c.reduce_tasks) _ _

    pub round-MapPhase :
        (now k : ℕ) (c : Coordinator F) (d : Disk K V F)
        → 10 < now
        → k < m
        → Plain formats input m
        → MapPhase k c d
        → Returns (GoesOn (MapPhase (suc k))) (round formats mapf reducef now c d)
    round-MapPhase now k c d late lt plain (maps, reduces, same, there, written) =
        let (u, at, files, fresh, run) =
          Progress-hands now k m (λ i. input i ∷ []) c.map_tasks late lt maps in
        subst (Returns (GoesOn (MapPhase (suc k))))
          (sym (map_round now k c d u at (omega (arith, maps.0)) fresh files same run (there k lt)))
          (Returns->>= (Progress 0 n (λ j. files_upto k j ++ formats.file_name k j ∷ []))
            (GoesOn (MapPhase (suc k)))
            (add_files formats.scan (file_names formats n 0 k) c.reduce_tasks) _
            (add_files-Progress formats.scan 0 n (files_upto k) (λ j. formats.file_name k j)
              (file_names formats n 0 k) c.reduce_tasks reduces
              (file_names-Named formats reads n 0 k n (omega arith)) (chosen-new k))
            (λ ts' progress. (
              refl,
              (
                subst (Progress (suc k) m (λ i. input i ∷ [])) (sym (set-set c.map_tasks k _ _)) (
                    Progress-completes k m (λ i. input i ∷ []) c.map_tasks u
                      (record u { status = Status.completed; start_time = now }) lt maps at refl
                      refl),
                subst (λ fs. Progress 0 n fs ts')
                    (fun_ext (λ j. sym (map_snoc (λ t. formats.file_name t j) (upto k) k)))
                    progress,
                same,
                mapped-Readable formats mapf n input content reads m d k plain there,
                Written-mapped k d written,
              ),
            )))
