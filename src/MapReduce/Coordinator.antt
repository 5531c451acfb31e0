-- ===== src/MapReduce/Coordinator.antt =====
-- mr/coordinator.go: the handlers that hand out tasks and take reports, each under the mutex. Log
-- messages are left out. The clock is an argument, in seconds; the zero time is 0. The name of a file is
-- of any type, and fmt.Sscanf with "mr-%d-%d" is a parameter.
pub mod Handing
pub mod Reports
mod Tests
use cs_350_boston_u.Base.{
  ℕ, zero, suc, ◌+◌, Bool, true, false, not, ◌&&◌, Option, none, some, List, [], ◌∷◌, ◌++◌, length,
  get_elem?, set, ltb, if◌then◌else◌, Outcome, returns, panics, or_panic, ◌>>=◌,
}
use cs_350_boston_u.Base.Int.{ℤ, pos, negsuc, eqb_ℤ}

pub data Status : Type 0 where
  unassigned in_progress completed : Status

abbrev pub is_unassigned : Status → Bool
is_unassigned unassigned = true
is_unassigned _ = false

abbrev pub is_completed : Status → Bool
is_completed completed = true
is_completed _ = false

-- The task kinds of rpc.go: map 0, reduce 1, all done 2, sleep 3.
pub data TaskKind : Type 0 where
  map_task reduce_task all_done sleep_a_bit : TaskKind

-- `TypeAndTasks`
pub record Task (F : Type 0) : Type 0 where
  pub idx : ℕ
  pub all_filenames : List F
  pub status : Status
  pub kind : TaskKind
  pub start_time : ℕ

pub record Coordinator (F : Type 0) : Type 0 where
  pub map_tasks : List (Task F)
  pub reduce_tasks : List (Task F)
  pub n_reduce : ℕ
  pub map_done : Bool
  pub reduce_done : Bool

pub record RequestTaskReply (F : Type 0) : Type 0 where
  pub task_type : TaskKind
  pub task_index : ℕ
  pub filenames : List F
  pub n_reduce : ℕ

-- The task type is any `int` that a worker sends.
pub record ReportTaskDoneArgs (F : Type 0) : Type 0 where
  pub task_type : ℤ
  pub task_index : ℤ
  pub intermediate_filenames : List F

module _ {F : Type 0} where
  -- The loops of `allMapTasksDone` and `allReduceTasksDone`.
  unfoldable pub all_completed : List (Task F) → Bool
  all_completed [] = true
  all_completed (t ∷ ts) =
      let rest = all_completed ts in if is_completed t.status then rest else false

  unfoldable pub all_map_tasks_done : Coordinator F → Bool
  all_map_tasks_done c = all_completed c.map_tasks

  unfoldable pub all_reduce_tasks_done : Coordinator F → Bool
  all_reduce_tasks_done c = all_completed c.reduce_tasks

  -- May the task be handed out? Its start lies more than ten seconds back.
  abbrev pub is_ready : ℕ → Task F → Bool
  is_ready now t = is_unassigned t.status && ltb (t.start_time + 10) now

  abbrev pub begun : ℕ → Task F → Task F
  begun now t = record t { status = Status.in_progress; start_time = now }

  -- The loop of `RequestTask` over the tasks, from index `i`: the index and the task that it hands out, and
  -- the tasks then.
  unfoldable pub hand_out : ℕ → ℕ → List (Task F) → Option (ℕ × Task F × List (Task F))
  hand_out now i [] = none
  hand_out now i (t ∷ ts) =
      let rest = hand_out now (suc i) ts in
      if is_ready now t
      then some (i, begun now t, begun now t ∷ ts)
      else elim rest [ none ↦ none | some (j, u, us) ↦ some (j, u, t ∷ us) ]

  abbrev pub reply_of : TaskKind → ℕ → Task F → ℕ → RequestTaskReply F
  reply_of kind i t n = record {
    task_type = kind;
    task_index = i;
    filenames = t.all_filenames;
    n_reduce = n;
  }

  -- The reply that is left when no task is handed out: whatever stood in its type is overwritten.
  abbrev pub quit_reply : RequestTaskReply F
  quit_reply = record {
    task_type = TaskKind.all_done;
    task_index = 0;
    filenames = [];
    n_reduce = 0;
  }

  -- `RequestTask` from the second test on.
  unfoldable pub request_reduce : ℕ → Coordinator F → Coordinator F × RequestTaskReply F
  unfolding all_map_tasks_done all_reduce_tasks_done hand_out
  request_reduce now c0 =
      let c =
        if all_map_tasks_done c0 && not c0.map_done then record c0 { map_done = true } else c0 in
      if all_map_tasks_done c && not (all_reduce_tasks_done c)
      then elim (hand_out now 0 c.reduce_tasks) [
        | none ↦ (c, quit_reply)
        | some (i, t, ts) ↦
            (record c { reduce_tasks = ts }, reply_of TaskKind.reduce_task i t c.n_reduce)
      ]
      else (c, quit_reply)

  unfoldable pub request_task : ℕ → Coordinator F → Coordinator F × RequestTaskReply F
  unfolding request_reduce
  request_task now c =
      if not (all_map_tasks_done c)
      then elim (hand_out now 0 c.map_tasks) [
        | none ↦ request_reduce now c
        | some (i, t, ts) ↦ (record c { map_tasks = ts }, reply_of TaskKind.map_task i t c.n_reduce)
      ]
      else request_reduce now c

  -- `tasks[i]`
  abbrev pub task_at : List (Task F) → ℤ → Outcome (Task F)
  task_at ts (pos i) = or_panic (get_elem? ts i)
  task_at ts (negsuc i) = panics

  abbrev pub put_task : List (Task F) → ℤ → Task F → List (Task F)
  put_task ts (pos i) t = set ts i t
  put_task ts (negsuc i) t = ts

  -- `tasks[i].Status = Completed`
  unfoldable pub complete : List (Task F) → ℤ → Outcome (List (Task F))
  complete ts i = do
    t ← task_at ts i
    returns (put_task ts i (record t { status = Status.completed }))

  -- `Done`
  unfoldable pub done : Coordinator F → Bool
  unfolding all_completed
  done c = if all_completed c.map_tasks then all_completed c.reduce_tasks else false

  -- The tasks that `MakeCoordinator` sets up.
  unfoldable pub map_tasks_from : ℕ → List F → List (Task F)
  map_tasks_from i [] = []
  map_tasks_from i (file ∷ files) =
      record {
        idx = i;
        all_filenames = file ∷ [];
        status = Status.unassigned;
        kind = TaskKind.map_task;
        start_time = 0;
      }
      ∷ map_tasks_from (suc i) files

  unfoldable pub reduce_tasks_from : ℕ → ℕ → List (Task F)
  reduce_tasks_from i zero = []
  reduce_tasks_from i (suc n) =
      record {
        idx = i;
        all_filenames = [];
        status = Status.unassigned;
        kind = TaskKind.reduce_task;
        start_time = 0;
      }
      ∷ reduce_tasks_from (suc i) n

  unfoldable pub make_coordinator : List F → ℕ → Coordinator F
  unfolding map_tasks_from reduce_tasks_from
  make_coordinator files n_reduce = record {
    map_tasks = map_tasks_from 0 files;
    reduce_tasks = reduce_tasks_from 0 n_reduce;
    n_reduce = n_reduce;
    map_done = false;
    reduce_done = false;
  }

module _ {F : Type 0} (scan : F → Option (ℤ × ℤ)) where
  -- log.Fatalf ends the process, as a panic does.
  unfoldable pub extract_reduce_task_index : F → Outcome ℤ
  extract_reduce_task_index filename = elim (scan filename) [
    | none ↦ panics
    | some (x, y) ↦ returns y
  ]

  -- The loop of `ReportTaskDone` over the files of a map task.
  unfoldable pub add_files : List F → List (Task F) → Outcome (List (Task F))
  unfolding extract_reduce_task_index
  add_files [] ts = returns ts
  add_files (filename ∷ files) ts = do
    i ← extract_reduce_task_index filename
    t ← task_at ts i
    add_files files (put_task ts i (record t { all_filenames = t.all_filenames ++ filename ∷ [] }))

  -- `ReportTaskDone`: the coordinator, whether the reply says that all is done, and whether the handler
  -- returns an error.
  unfoldable pub report_task_done :
      Coordinator F → ReportTaskDoneArgs F → Outcome (Coordinator F × Bool × Bool)
  unfolding add_files complete all_map_tasks_done all_reduce_tasks_done
  report_task_done c args =
      if all_map_tasks_done c && all_reduce_tasks_done c
      then returns (c, true, false)
      else if eqb_ℤ args.task_type (pos 0)
      then (do
        maps ← complete c.map_tasks args.task_index
        reduces ← add_files args.intermediate_filenames c.reduce_tasks
        returns (record c { map_tasks = maps; reduce_tasks = reduces }, false, false))
      else if eqb_ℤ args.task_type (pos 1)
      then (do
        reduces ← complete c.reduce_tasks args.task_index
        returns (record c { reduce_tasks = reduces }, false, false))
      else returns (c, false, true)
