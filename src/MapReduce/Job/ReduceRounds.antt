-- ===== src/MapReduce/Job/ReduceRounds.antt =====
-- mr/worker.go with mr/coordinator.go: once the map tasks are done, a round does the next reduce task, and
-- when there is none left the worker is told so.
use cs_350_boston_u.Base.{
  ℕ, suc, ◌<◌, ◌==◌, ==_iff, ltb, ◌≡◌, refl, sym, subst, ap, ◌∙◌, set-set, Bool, true, false, not,
  ◌&&◌, Bool-cases, inl, inr, List, [], length, get_elem?, get_elem?_lt, get_elem?-set_self, set,
  some, if◌then◌else◌, returns, ◌>>=◌, Returns, arith,
}
use cs_350_boston_u.Base.Comparable.{Comparable}
use cs_350_boston_u.MapReduce.Coordinator.{
  Status, TaskKind, Task, Coordinator, request_task, all_completed, all_map_tasks_done,
  all_reduce_tasks_done, begun, hand_out, reply_of, quit_reply, done,
}
use cs_350_boston_u.MapReduce.Coordinator.Handing.{
  request_task_reduces, request_task_quits, each-all_completed, marked, marked_tasks,
}
use cs_350_boston_u.MapReduce.Coordinator.Reports.{report_task_done_reduce}
use cs_350_boston_u.MapReduce.Worker.{KeyValue, Formats, Disk, worker_turn}
use cs_350_boston_u.MapReduce.Worker.Files.{Reads}
use cs_350_boston_u.MapReduce.Job.{listed, reduce_turn, Written}
use cs_350_boston_u.MapReduce.Job.Reduces.{
  files_of, reduced, Printed, reduced-Printed, reduced-keeps, report_reduce, reduce_served,
}
use cs_350_boston_u.MapReduce.Job.Progress.{
  Progress, Progress-hands, Progress-completes, not_all_completed,
}
use cs_350_boston_u.MapReduce.Job.Rounds.{round, round_reports, round_exits, GoesOn}

pub Progress-all_completed :
    {F : Type 0} (m : ℕ) (files : ℕ → List F) (ts : List (Task F))
    → Progress m m files ts
    → all_completed ts ≡ true
Progress-all_completed m files ts (len, at) = each-all_completed ts (λ k t there.
    let lt : k < m = omega (arith, get_elem?_lt ts k t there, len) in
    let (u, there', _, over) = at k lt in
    let in_range : ltb k m ≡ true = ground (arith, lt) in
    let complete : u.status ≡ Status.completed =
      subst
        (λ b.
          if b
          then u.status ≡ Status.completed
          else (u.status ≡ Status.unassigned) × (u.start_time ≡ 0))
        in_range over in
    cc (there, there', complete))

module _ {K V F : Type 0} ⦃keys : Comparable K⦄ ⦃names : Comparable F⦄ (formats : Formats K V F)
    (mapf : F → List ℕ → List (KeyValue K V)) (reducef : K → List V → V) (n : ℕ) (input : ℕ → F)
    (content : ℕ → List ℕ) (ts : List ℕ) where
  abbrev pub files_for : ℕ → List F
  files_for j = files_of formats mapf n input content j ts

  -- The map tasks are done, and `k` reduce tasks.
  abbrev pub ReducePhase : ℕ → Coordinator F → Disk K V F → Type 0
  ReducePhase k c d =
      (all_completed c.map_tasks ≡ true)
      × Progress k n files_for c.reduce_tasks
      × (c.n_reduce ≡ n)
      × ((t : ℕ) → listed t ts ≡ true → Written formats mapf n input content d t)
      × ((j : ℕ) → j < k → Printed formats mapf reducef n input content (λ _. ts) d j)

  -- What `RequestTask` leaves when it hands out the reduce task.
  abbrev given : ℕ → ℕ → Coordinator F → Task F → Coordinator F
  given now k c u = record (marked c) { reduce_tasks = set c.reduce_tasks k (begun now u) }

  reduce_request :
      (now k : ℕ) (c : Coordinator F) (u : Task F)
      → all_completed c.map_tasks ≡ true
      → get_elem? c.reduce_tasks k ≡ some u
      → u.status ≡ Status.unassigned
      → u.all_filenames ≡ files_for k
      → c.n_reduce ≡ n
      → hand_out now 0 c.reduce_tasks ≡ some (k, begun now u, set c.reduce_tasks k (begun now u))
      → request_task now c ≡ (given now k c u, (reduce_turn n k (files_for k)).0)
  reduce_request now k c u maps there fresh files same run =
      let more = not_all_completed c.reduce_tasks k u there (λ over. cc (fresh, over)) in
      let reply : reply_of TaskKind.reduce_task k (begun now u) c.n_reduce
          ≡ (reduce_turn n k (files_for k)).0 =
        rw (files, same) refl in
      request_task_reduces now c (k, begun now u, set c.reduce_tasks k (begun now u)) maps more run
      ∙ ap (λ r. (given now k c u, r)) reply

  Printed-next :
      (k : ℕ) (d : Disk K V F)
      → ((j : ℕ) → j < k → Printed formats mapf reducef n input content (λ _. ts) d j)
      → (j : ℕ) → j < suc k
      → Printed formats mapf reducef n input content
          (λ _. ts)
          (reduced formats mapf reducef n input content d k ts)
          j
  Printed-next k d printed j lt = elim (Bool-cases (k == j)) [
    | inl here ↦
        subst
          (Printed formats mapf reducef n input content (λ _. ts)
            (reduced formats mapf reducef n input content d k ts))
          ((==_iff k j).0 here) (reduced-Printed formats mapf reducef n input content (λ _. ts) d k)
    | inr other ↦
        reduced-keeps formats mapf reducef n input content (λ _. ts) d k j
          (printed j (ground (arith, other, lt)))
  ]

  module _ (reads : Reads formats) (some_file : (ts ≡ []) → ⊥) where
    reduce_round :
        (now k : ℕ) (c : Coordinator F) (d : Disk K V F) (u : Task F)
        → all_completed c.map_tasks ≡ true
        → get_elem? c.reduce_tasks k ≡ some u
        → k < length c.reduce_tasks
        → k < n
        → u.status ≡ Status.unassigned
        → u.all_filenames ≡ files_for k
        → c.n_reduce ≡ n
        → hand_out now 0 c.reduce_tasks ≡ some (k, begun now u, set c.reduce_tasks k (begun now u))
        → ((t : ℕ) → listed t ts ≡ true → Written formats mapf n input content d t)
        → round formats mapf reducef now c d
          ≡ returns (
            record (marked c) {
              reduce_tasks =
                  set
                    (set c.reduce_tasks k (begun now u))
                    k
                    (record u { status = Status.completed; start_time = now });
            },
            reduced formats mapf reducef n input content d k ts,
            true,
          )
    unfolding report_reduce all_map_tasks_done all_reduce_tasks_done
    reduce_round now k c d u maps at lt in_range fresh files same run written =
        let c1 : Coordinator F = given now k c u in
        let again : get_elem? c1.reduce_tasks k ≡ some (begun now u) =
          get_elem?-set_self c.reduce_tasks k (begun now u) lt in
        let maps1 : all_completed c1.map_tasks ≡ true =
          ap all_completed ((marked_tasks c).0) ∙ maps in
        let left : (all_completed c1.map_tasks && all_completed c1.reduce_tasks) ≡ false =
          rw maps1 (not_all_completed c1.reduce_tasks k (begun now u) again (λ over. cc)) in
        round_reports formats mapf reducef now c c1 d
          (reduced formats mapf reducef n input content d k ts) (reduce_turn n k (files_for k)).0
          (report_reduce formats mapf reducef n input content k)
          (reduce_request now k c u maps at fresh files same run)
          (reduce_served formats mapf reducef n input content reads k ts d some_file in_range
            written)
        ∙ ap
            (λ o. o >>= λ r.
              returns (r.0, reduced formats mapf reducef n input content d k ts, not r.1))
            (report_task_done_reduce formats.scan c1
              (report_reduce formats mapf reducef n input content k) k (begun now u) refl refl left
              again)

    pub round-ReducePhase :
        (now k : ℕ) (c : Coordinator F) (d : Disk K V F)
        → 10 < now
        → k < n
        → ReducePhase k c d
        → Returns (GoesOn (ReducePhase (suc k))) (round formats mapf reducef now c d)
    round-ReducePhase now k c d late lt (maps, reduces, same, written, printed) =
        let (u, at, files, fresh, run) =
          Progress-hands now k n files_for c.reduce_tasks late lt reduces in
        let (maps_eq, _, n_eq) = marked_tasks c in
        subst (Returns (GoesOn (ReducePhase (suc k))))
          (sym (
            reduce_round now k c d u maps at (omega (arith, reduces.0, lt)) lt fresh files same run
              written))
          (
            refl,
            (
              ap all_completed maps_eq ∙ maps,
              subst (Progress (suc k) n files_for) (sym (set-set c.reduce_tasks k _ _)) (
                  Progress-completes k n files_for c.reduce_tasks u
                    (record u { status = Status.completed; start_time = now }) lt reduces at refl
                    refl),
              n_eq ∙ same,
              written,
              Printed-next k d printed,
            ),
          )

  -- The worker stops, and the job is done.
  abbrev pub Stops : Coordinator F × Disk K V F × Bool → Type 0
  Stops (c, d, more) =
      (more ≡ false)
      × (done c ≡ true)
      × ((j : ℕ) → j < n → Printed formats mapf reducef n input content (λ _. ts) d j)

  pub round-Stops :
      (now : ℕ) (c : Coordinator F) (d : Disk K V F)
      → ReducePhase n c d
      → Returns Stops (round formats mapf reducef now c d)
  unfolding worker_turn done
  round-Stops now c d (maps, reduces, same, written, printed) =
      let all = Progress-all_completed n files_for c.reduce_tasks reduces in
      let (maps_eq, reduces_eq, _) = marked_tasks c in
      subst (Returns Stops)
        (sym (
          round_exits formats mapf reducef now c (marked c) d quit_reply
            (request_task_quits now c maps all) refl))
        (refl, rw (maps_eq, reduces_eq, maps, all) refl, printed)
