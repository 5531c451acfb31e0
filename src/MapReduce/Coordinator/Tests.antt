-- ===== src/MapReduce/Coordinator/Tests.antt =====
-- Witnesses on a job of two files and one reduce task; files are numbers.
use cs_350_boston_u.Base.{ℕ, zero, suc, ◌≡◌, ◌≢◌, ◌↔◌, refl, true, [], ◌∷◌, get_elem?, some, arith}
use cs_350_boston_u.Base.{Option, Returns, false}
use cs_350_boston_u.Base.Int.{ℤ, pos}
use cs_350_boston_u.MapReduce.Coordinator.Reports.{with_files, chosen, report_task_done_map}
use cs_350_boston_u.MapReduce.Coordinator.{
  ReportTaskDoneArgs, report_task_done, Status, TaskKind, Task, Coordinator, all_completed,
  all_map_tasks_done, make_coordinator, quit_reply, request_task, done,
}
use cs_350_boston_u.MapReduce.Coordinator.Handing.{
  Outcomes, request_task_cases, request_task_quits_early, done_iff,
}

abbrev job : Coordinator ℕ
unfolding make_coordinator
job = make_coordinator (7 ∷ 8 ∷ []) 1

request_task_cases_example : Outcomes 100 job (request_task 100 job)
request_task_cases_example = request_task_cases 100 job

done_iff_example : (done job ≡ true) ↔ (
    ((k : ℕ) (t : Task ℕ) → get_elem? job.map_tasks k ≡ some t → t.status ≡ Status.completed)
    × ((k : ℕ) (t : Task ℕ) → get_elem? job.reduce_tasks k ≡ some t → t.status ≡ Status.completed))
done_iff_example = done_iff job

-- One task in progress, one completed.
abbrev running : Task ℕ
running = record {
  idx = 0;
  all_filenames = 7 ∷ [];
  status = Status.in_progress;
  kind = TaskKind.map_task;
  start_time = 50;
}

abbrev busy_job : Coordinator ℕ
busy_job = record job {
  map_tasks = running ∷ record running { idx = 1; status = Status.completed } ∷ [];
}

none_unassigned :
    (k : ℕ) (t : Task ℕ) → get_elem? busy_job.map_tasks k ≡ some t → t.status ≢ Status.unassigned
none_unassigned zero t at = ground (arith, at)
none_unassigned (suc zero) t at = ground (arith, at)
none_unassigned (suc (suc k)) t at = cc

request_task_quits_early_example : request_task 100 busy_job ≡ (busy_job, quit_reply)
unfolding all_map_tasks_done all_completed
request_task_quits_early_example = request_task_quits_early 100 busy_job none_unassigned refl

abbrev waiting : Task ℕ
waiting = record {
  idx = 0;
  all_filenames = [];
  status = Status.unassigned;
  kind = TaskKind.reduce_task;
  start_time = 0;
}

abbrev map_phase : Coordinator ℕ
map_phase = record busy_job { reduce_tasks = waiting ∷ [] }

-- Every file is for the first reduce task.
abbrev scan_first : ℕ → Option (ℤ × ℤ)
scan_first f = some (pos 0, pos 0)

abbrev first_report : ReportTaskDoneArgs ℕ
first_report = record {
  task_type = pos 0;
  task_index = pos 0;
  intermediate_filenames = 31 ∷ 32 ∷ [];
}

report_task_done_map_example :
    Returns
      (λ o.
        (get_elem? o.0.map_tasks 0 ≡ some (record running { status = Status.completed }))
        × (get_elem? o.0.map_tasks 1 ≡ get_elem? map_phase.map_tasks 1)
        × (get_elem? o.0.reduce_tasks 0
            ≡ some (with_files waiting (chosen scan_first 0 (31 ∷ 32 ∷ []))))
        × (o.1 ≡ false)
        × (o.2 ≡ false))
      (report_task_done scan_first map_phase first_report)
unfolding all_map_tasks_done all_completed
report_task_done_map_example =
    report_task_done_map scan_first map_phase first_report 0 1 0 running waiting refl refl refl refl
      (omega arith) refl refl ((pos 0, 0, refl, omega arith), ((pos 0, 0, refl, omega arith), tt))
