-- ===== src/MapReduce/Job.antt =====
-- mr/worker.go, a job as the workers do it: the turns of its map tasks and of its reduce tasks, and what
-- has to be on the disk after them. Task `t` has the input file `input t`.
pub mod Maps
pub mod Reduces
pub mod Orders
pub mod Output
pub mod Reporting
pub mod Progress
pub mod Rounds
pub mod ReduceRounds
pub mod Filing
pub mod MapRounds
pub mod Starts
pub mod Work
use cs_350_boston_u.Base.{
  ℕ, zero, suc, ◌<◌, ◌==◌, ◌≡◌, Bool, true, false, ◌||◌, some, none, List, [], ◌∷◌, ◌++◌, map,
  Outcome, returns, panics, blocks, ◌>>=◌, Returns,
}
use cs_350_boston_u.Base.Int.{pos}
use cs_350_boston_u.MapReduce.Coordinator.{TaskKind, RequestTaskReply, ReportTaskDoneArgs}
use cs_350_boston_u.MapReduce.Worker.{KeyValue, Formats, Disk, bucket, file_names, write_buckets}

abbrev pub listed : ℕ → List ℕ → Bool
listed t [] = false
listed t (x ∷ xs) = (t == x) || listed t xs

module _ {K V F : Type 0} where
  -- What a map task prints, for each task of the list.
  abbrev pub pairs_of :
      (F → List ℕ → List (KeyValue K V)) → (ℕ → F) → (ℕ → List ℕ) → List ℕ → List (KeyValue K V)
  pairs_of mapf input content [] = []
  pairs_of mapf input content (t ∷ ts) =
      mapf (input t) (content t) ++ pairs_of mapf input content ts

module _ {F : Type 0} where
  -- A worker is handed the map task, and there is more to do when it reports.
  abbrev pub map_turn : (ℕ → F) → ℕ → ℕ → RequestTaskReply F × Bool
  map_turn input n t = (
    record {
      task_type = TaskKind.map_task;
      task_index = t;
      filenames = input t ∷ [];
      n_reduce = n;
    },
    false,
  )

  -- A worker is handed the reduce task, with these files.
  abbrev pub reduce_turn : ℕ → ℕ → List F → RequestTaskReply F × Bool
  reduce_turn n j files = (
    record { task_type = TaskKind.reduce_task; task_index = j; filenames = files; n_reduce = n },
    false,
  )

module _ {K V F : Type 0} (input : ℕ → F) (content : ℕ → List ℕ) where
  -- The input files of the first tasks are there.
  abbrev pub Readable : ℕ → Disk K V F → Type 0
  Readable m d = (t : ℕ) → t < m → d.files (input t) ≡ some (content t)

module _ {K V F : Type 0} (formats : Formats K V F) where
  -- No input file has the name of an intermediate file.
  abbrev pub Plain : (ℕ → F) → ℕ → Type 0
  Plain input m = (t : ℕ) → t < m → formats.scan (input t) ≡ none

  -- The intermediate files of the map task are there.
  abbrev pub Written :
      (F → List ℕ → List (KeyValue K V)) → ℕ → (ℕ → F) → (ℕ → List ℕ) → Disk K V F → ℕ → Type 0
  Written mapf n input content d t =
      (j : ℕ)
      → j < n
      → d.files (formats.file_name t j)
        ≡ some (formats.encode (bucket formats n j (mapf (input t) (content t))))

-- What holds of the disk does not depend on the reports.
pub Returns-report :
    {D A : Type 0} (P : D → Type 0) (o : Outcome (D × List A)) (a : A)
    → Returns {A = D × List A} (λ r. P r.0) o
    → Returns {A = D × List A} (λ r. P r.0) (do (last, more) ← o; returns (last, a ∷ more))
Returns-report P (returns (last, more)) a h = h
Returns-report P panics a h = elim h [ ]
Returns-report P blocks a h = elim h [ ]
