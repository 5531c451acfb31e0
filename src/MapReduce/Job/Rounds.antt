-- ===== src/MapReduce/Job/Rounds.antt =====
-- mr/worker.go with mr/coordinator.go: a job that one worker does, round after round: a request, the turn,
-- and the report.
use cs_350_boston_u.Base.{ℕ, ◌≡◌, ap, ◌∙◌, Bool, true, false, not, List, Outcome, returns, ◌>>=◌}
use cs_350_boston_u.Base.Comparable.{Comparable}
use cs_350_boston_u.MapReduce.Coordinator.{
  Coordinator, ReportTaskDoneArgs, RequestTaskReply, request_task, report_task_done,
}
use cs_350_boston_u.MapReduce.Worker.{KeyValue, Formats, Disk, Turn, worker_turn}

module _ {K V F : Type 0} where
  -- The worker goes on, and this holds then.
  abbrev pub GoesOn :
      (Coordinator F → Disk K V F → Type 0) → Coordinator F × Disk K V F × Bool → Type 0
  GoesOn P (c, d, more) = (more ≡ true) × P c d

module _ {K V F : Type 0} ⦃keys : Comparable K⦄ ⦃names : Comparable F⦄ (formats : Formats K V F)
    (mapf : F → List ℕ → List (KeyValue K V)) (reducef : K → List V → V) where
  -- After the turn: a report goes to the coordinator, and its answer says whether the worker goes on.
  unfoldable pub hear :
      Coordinator F → Disk K V F → Turn F → Outcome (Coordinator F × Disk K V F × Bool)
  hear c d Turn.again = returns (c, d, true)
  hear c d Turn.exits = returns (c, d, false)
  hear c d (Turn.reports args) = do
    (c', over, err) ← report_task_done formats.scan c args
    returns (c', d, not over)

  unfoldable pub answer :
      Disk K V F → Coordinator F × RequestTaskReply F → Outcome (Coordinator F × Disk K V F × Bool)
  unfolding hear
  answer d (c, reply) = do (d', turn) ← worker_turn formats mapf reducef reply d; hear c d' turn

  -- A round of the loop of `Worker`: a request, the turn and the report. The coordinator and the disk
  -- then, and whether the worker goes on.
  unfoldable pub round :
      ℕ → Coordinator F → Disk K V F → Outcome (Coordinator F × Disk K V F × Bool)
  unfolding answer
  round now c d = answer d (request_task now c)

  pub round_reports :
      (now : ℕ) (c c1 : Coordinator F) (d d' : Disk K V F) (reply : RequestTaskReply F)
      (args : ReportTaskDoneArgs F)
      → request_task now c ≡ (c1, reply)
      → worker_turn formats mapf reducef reply d ≡ returns (d', Turn.reports args)
      → round now c d
        ≡ (do (c2, over, err) ← report_task_done formats.scan c1 args; returns (c2, d', not over))
  unfolding round
  round_reports now c c1 d d' reply args asked did =
      ap (answer d) asked ∙ ap (λ o. o >>= λ r. hear c1 r.0 r.1) did

  pub round_exits :
      (now : ℕ) (c c1 : Coordinator F) (d : Disk K V F) (reply : RequestTaskReply F)
      → request_task now c ≡ (c1, reply)
      → worker_turn formats mapf reducef reply d ≡ returns (d, Turn.exits)
      → round now c d ≡ returns (c1, d, false)
  unfolding round
  round_exits now c c1 d reply asked did =
      ap (answer d) asked ∙ ap (λ o. o >>= λ r. hear c1 r.0 r.1) did
