-- ===== src/MapReduce/Coordinator/Handing.antt =====
-- mr/coordinator.go, `RequestTask` and `Done`: what is handed out, and when the job is over.
mod Loop
pub use Loop.*
use cs_350_boston_u.Base.{
  ℕ, zero, suc, ◌+◌, ◌<◌, ◌≡◌, refl, sym, ap, ◌∙◌, ◌≢◌, ◌↔◌, ◌⊎◌, inl, inr, true, false, not, ◌&&◌,
  none, some, List, [], ◌∷◌, get_elem?, set, if◌then◌else◌, arith, Bool-cases, subst,
}
use cs_350_boston_u.MapReduce.Coordinator.{
  Status, TaskKind, Task, Coordinator, RequestTaskReply, all_completed, all_map_tasks_done,
  all_reduce_tasks_done, is_ready, begun, hand_out, reply_of, quit_reply, request_reduce,
  request_task, done, is_completed,
}

module _ {F : Type 0} where
  -- A task of one phase has been handed out, with its reply.
  abbrev pub Gives : ℕ → TaskKind → List (Task F) → List (Task F) → ℕ → RequestTaskReply F → Type 0
  Gives now kind ts ts' n reply =
      (k : ℕ) × (t : Task F) × Handed now k t ts ts'
      × (reply
          ≡ record { task_type = kind; task_index = k; filenames = t.all_filenames; n_reduce = n })

  -- What a request may come to: the first ready map task is handed out; or, once all map tasks are
  -- completed, the first ready reduce task; or nothing, when no map task is ready, and some map task is
  -- not completed or no reduce task is ready.
  abbrev pub Outcomes : ℕ → Coordinator F → Coordinator F × RequestTaskReply F → Type 0
  Outcomes now c o =
      (Gives now TaskKind.map_task c.map_tasks o.0.map_tasks c.n_reduce o.1
        × (o.0.reduce_tasks ≡ c.reduce_tasks))
      ⊎ ((AllCompleted c.map_tasks
            × Gives now TaskKind.reduce_task c.reduce_tasks o.0.reduce_tasks c.n_reduce o.1
            × (o.0.map_tasks ≡ c.map_tasks))
          ⊎ ((o.1 ≡ record {
            task_type = TaskKind.all_done;
            task_index = 0;
            filenames = [];
            n_reduce = 0;
          })
              × (o.0.map_tasks ≡ c.map_tasks)
              × (o.0.reduce_tasks ≡ c.reduce_tasks)
              × NoneReady now c.map_tasks
              × (SomeOpen c.map_tasks ⊎ NoneReady now c.reduce_tasks)))

  -- The mark that the map phase is over.
  abbrev pub marked : Coordinator F → Coordinator F
  marked c = if all_completed c.map_tasks && not c.map_done then record c { map_done = true } else c

  pub marked_tasks :
      (c : Coordinator F)
      → ((marked c).map_tasks ≡ c.map_tasks)
        × ((marked c).reduce_tasks ≡ c.reduce_tasks)
        × ((marked c).n_reduce ≡ c.n_reduce)
  marked_tasks c = ground arith

  reduce_quits :
      (now : ℕ) (c : Coordinator F)
      → NoneReady now c.map_tasks
      → SomeOpen c.map_tasks ⊎ NoneReady now c.reduce_tasks
      → request_reduce now c ≡ (marked c, quit_reply)
      → Outcomes now c (request_reduce now c)
  reduce_quits now c no_map no_reduce run =
      let (maps, reduces, n) = marked_tasks c in
      rw run (inr (inr (refl, maps, reduces, no_map, no_reduce)))

  reduce_gives :
      (now k : ℕ) (t : Task F) (ts : List (Task F)) (c : Coordinator F)
      → AllCompleted c.map_tasks
      → Handed now k t c.reduce_tasks ts
      → request_reduce now c
        ≡ (record (marked c) { reduce_tasks = ts }, reply_of TaskKind.reduce_task k t c.n_reduce)
      → Outcomes now c (request_reduce now c)
  reduce_gives now k t ts c all h run =
      let (maps, reduces, n) = marked_tasks c in rw run (inr (inl (all, (k, t, h, refl), maps)))

  reduce_cases :
      (now : ℕ) (c : Coordinator F)
      → NoneReady now c.map_tasks
      → Outcomes now c (request_reduce now c)
  unfolding request_reduce all_map_tasks_done all_reduce_tasks_done
  reduce_cases now c no_map = elim (Bool-cases (all_completed c.map_tasks)) [
    | inr more ↦
        reduce_quits now c no_map (inl (not_all-SomeOpen c.map_tasks more)) (ground (arith, more))
    | inl maps ↦ elim (Bool-cases (all_completed c.reduce_tasks)) [
      | inl all ↦
          reduce_quits now c no_map
            (inr
              (AllCompleted-NoneReady now c.reduce_tasks (all_completed-each c.reduce_tasks all)))
            (ground (arith, maps, all))
      | inr more ↦ elim (hand_out_first now c.reduce_tasks) [
        | inr (run, none_ready) ↦
            reduce_quits now c no_map (inr none_ready) (ground (arith, maps, more, run))
        | inl (k, t, ts, run, h) ↦
            reduce_gives now k t ts c (all_completed-each c.map_tasks maps) h
              (ground (arith, maps, more, run))
      ]
    ]
  ]

  request_task_over :
      (now : ℕ) (c : Coordinator F)
      → all_completed c.map_tasks ≡ true
      → request_task now c ≡ request_reduce now c
  unfolding request_task all_map_tasks_done
  request_task_over now c maps = rw maps refl

  request_task-none :
      (now : ℕ) (c : Coordinator F)
      → all_completed c.map_tasks ≡ false
      → hand_out now 0 c.map_tasks ≡ none
      → request_task now c ≡ request_reduce now c
  unfolding request_task all_map_tasks_done
  request_task-none now c more run = ground (arith, more, run)

  pub request_task_gives :
      (now : ℕ) (c : Coordinator F) (o : ℕ × Task F × List (Task F))
      → all_completed c.map_tasks ≡ false
      → hand_out now 0 c.map_tasks ≡ some o
      → request_task now c
        ≡ (record c { map_tasks = o.2 }, reply_of TaskKind.map_task o.0 o.1 c.n_reduce)
  unfolding request_task all_map_tasks_done
  request_task_gives now c o more run = rw more (rw run refl)

  -- Once all map tasks are completed, and while some reduce task is not.
  pub request_task_reduces :
      (now : ℕ) (c : Coordinator F) (o : ℕ × Task F × List (Task F))
      → all_completed c.map_tasks ≡ true
      → all_completed c.reduce_tasks ≡ false
      → hand_out now 0 c.reduce_tasks ≡ some o
      → request_task now c ≡ (
        record (marked c) { reduce_tasks = o.2 },
        reply_of TaskKind.reduce_task o.0 o.1 c.n_reduce,
      )
  unfolding request_task request_reduce all_map_tasks_done all_reduce_tasks_done
  request_task_reduces now c o maps more run = ground (arith, maps, more, run)

  pub request_task_quits :
      (now : ℕ) (c : Coordinator F)
      → all_completed c.map_tasks ≡ true
      → all_completed c.reduce_tasks ≡ true
      → request_task now c ≡ (marked c, quit_reply)
  unfolding request_task request_reduce all_map_tasks_done all_reduce_tasks_done
  request_task_quits now c maps all = ground (arith, maps, all)

  -- A request hands out the first map task that is ready, which is one that is unassigned and whose
  -- start lies more than ten seconds back; or, once all map tasks are completed, the first such reduce
  -- task; or, when no map task is ready, and some map task is not completed or no reduce task is ready,
  -- it hands out nothing and says that all is done. A task that is handed out is in progress from now on,
  -- its index and files go into the reply with the number of reduce tasks, and no other task is touched.
  pub request_task_cases : (now : ℕ) (c : Coordinator F) → Outcomes now c (request_task now c)
  request_task_cases now c = elim (Bool-cases (all_completed c.map_tasks)) [
    | inl maps ↦ subst (Outcomes now c) (sym (request_task_over now c maps)) (
        reduce_cases now c
          (AllCompleted-NoneReady now c.map_tasks (all_completed-each c.map_tasks maps)))
    | inr more ↦ elim (hand_out_first now c.map_tasks) [
      | inl (k, t, ts, run, h) ↦
          subst (Outcomes now c) (sym (request_task_gives now c (k, t, ts) more run))
            (inl ((k, t, h, refl), refl))
      | inr (run, no_map) ↦
          subst (Outcomes now c) (sym (request_task-none now c more run))
            (reduce_cases now c no_map)
    ]
  ]

  -- While some map task is not completed but none is unassigned, a request changes nothing, and the
  -- worker is told that all is done.
  pub request_task_quits_early :
      (now : ℕ) (c : Coordinator F)
      → ((k : ℕ) (t : Task F) → get_elem? c.map_tasks k ≡ some t → t.status ≢ Status.unassigned)
      → all_map_tasks_done c ≡ false
      → request_task now c ≡ (c, quit_reply)
  unfolding request_task request_reduce all_map_tasks_done
  request_task_quits_early now c busy more = elim (hand_out_cases now 0 c.map_tasks) [
    | inl (k, t, ts, run, h) ↦ absurd (busy k h.old h.at h.ready.0)
    | inr (run, rest) ↦ ground (arith, run, more)
  ]

  -- The job is over exactly when every map task and every reduce task is completed.
  pub done_iff :
      (c : Coordinator F)
      → (done c ≡ true) ↔ (
          ((k : ℕ) (t : Task F) → get_elem? c.map_tasks k ≡ some t → t.status ≡ Status.completed)
          × ((k : ℕ) (t : Task F)
              → get_elem? c.reduce_tasks k ≡ some t
              → t.status ≡ Status.completed))
  unfolding done
  done_iff c = (
    λ h. (
      all_completed-each c.map_tasks (ground (arith, h)),
      all_completed-each c.reduce_tasks (ground (arith, h)),
    ),
    λ h. ground (arith, each-all_completed c.map_tasks h.0, each-all_completed c.reduce_tasks h.1),
  )
