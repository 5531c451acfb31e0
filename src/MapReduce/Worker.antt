-- ===== src/MapReduce/Worker.antt =====
-- mr/worker.go: map and reduce tasks on files, and a turn of the worker's loop. Keys, values and file
-- names are of any types. The hash, the names and the JSON encoding are the standard library's, and
-- parameters. A file is created and written without fail; the file that a reduce task prints is kept as
-- its lines.
pub mod Files
pub mod Groups
use cs_350_boston_u.Base.{
  ℕ, zero, suc, ◌%◌, ◌^◌, ◌≡◌, Bool, true, false, ◌==◌, Option, none, some, List, [], ◌∷◌, ◌++◌,
  map, if◌then◌else◌, Outcome, returns, panics, or_panic, ◌>>=◌,
}
use cs_350_boston_u.Base.Int.{ℤ, pos}
use cs_350_boston_u.Base.Comparable.{Comparable}
use cs_350_boston_u.MapReduce.Coordinator.{TaskKind, RequestTaskReply, ReportTaskDoneArgs}

pub record KeyValue (K V : Type 0) : Type 0 where
  pub key : K
  pub value : V

-- What the worker uses of hash/fnv, fmt and encoding/json: `Sum32`, the two `Sprintf`s' names and the
-- `Sscanf` that reads the first back, and a stream of encoded pairs.
pub record Formats (K V F : Type 0) : Type 0 where
  pub sum32 : K → ℕ
  pub file_name : ℕ → ℕ → F
  pub scan : F → Option (ℤ × ℤ)
  pub encode : List (KeyValue K V) → List ℕ
  pub decode : List ℕ → List (KeyValue K V)

-- The working directory: the files by name, and the lines of each `mr-out-%d`.
pub record Disk (K V F : Type 0) : Type 0 where
  pub files : F → Option (List ℕ)
  pub outputs : ℕ → Option (List (K × V))

-- What the loop does after a reply.
pub data Turn (F : Type 0) : Type 0 where
  again exits : Turn F
  reports : ReportTaskDoneArgs F → Turn F

module _ {K V F : Type 0} where
  -- `int(h.Sum32() & 0x7fffffff)`
  abbrev pub ihash : Formats K V F → K → ℕ
  ihash formats key = formats.sum32 key % 2 ^ 31

  -- The pairs that are for reduce task `i`.
  unfoldable pub bucket : Formats K V F → ℕ → ℕ → List (KeyValue K V) → List (KeyValue K V)
  bucket formats n i [] = []
  bucket formats n i (kv ∷ kva) =
      let rest = bucket formats n i kva in if ihash formats kv.key % n == i then kv ∷ rest else rest

  -- The second loop of `doMap`, from `i`, with the rounds left.
  unfoldable pub file_names : Formats K V F → ℕ → ℕ → ℕ → List F
  file_names formats zero i task = []
  file_names formats (suc rounds) i task =
      formats.file_name task i ∷ file_names formats rounds (suc i) task

module _ {K V F : Type 0} ⦃names : Comparable F⦄ where
  abbrev pub create : F → List ℕ → Disk K V F → Disk K V F
  create name bytes d = record d { files = λ f. if names.eqb name f then some bytes else d.files f }

  -- The first loop of `doMap`, from `i`, with the rounds left.
  unfoldable pub write_buckets :
      Formats K V F → ℕ → ℕ → ℕ → ℕ → List (KeyValue K V) → Disk K V F → Disk K V F
  unfolding bucket
  write_buckets formats zero i task n kva d = d
  write_buckets formats (suc rounds) i task n kva d =
      write_buckets formats rounds (suc i) task n kva
        (create (formats.file_name task i) (formats.encode (bucket formats n i kva)) d)

  unfoldable pub do_map :
      Formats K V F
      → (F → List ℕ → List (KeyValue K V))
      → ℕ
      → F
      → ℕ
      → Disk K V F
      → Outcome (Disk K V F × List F)
  unfolding write_buckets file_names
  do_map formats mapf task filename n d = do
    content ← or_panic (d.files filename)
    returns
        (write_buckets formats n 0 task n (mapf filename content) d, file_names formats n 0 task)

module _ {K V : Type 0} ⦃keys : Comparable K⦄ where
  -- `kvMap[key] = append(kvMap[key], value)`. The keys stand in the order of their first pairs; Go
  -- ranges over them in any order.
  unfoldable pub add_value : K → V → List (K × List V) → List (K × List V)
  add_value key value [] = (key, value ∷ []) ∷ []
  add_value key value ((k, values) ∷ m) =
      let rest = add_value key value m in
      if keys.eqb key k then (k, values ++ value ∷ []) ∷ m else (k, values) ∷ rest

  unfoldable pub add_values : List (KeyValue K V) → List (K × List V) → List (K × List V)
  unfolding add_value
  add_values [] m = m
  add_values (kv ∷ kvs) m = add_values kvs (add_value kv.key kv.value m)

module _ {K V : Type 0} where
  -- The loop that prints a line for each key.
  unfoldable pub output_lines : (K → List V → V) → List (K × List V) → List (K × V)
  output_lines reducef [] = []
  output_lines reducef ((k, values) ∷ m) = (k, reducef k values) ∷ output_lines reducef m

module _ {K V F : Type 0} ⦃keys : Comparable K⦄ where
  -- The loop of `doReduce` over the files.
  unfoldable pub read_files :
      Formats K V F → List F → Disk K V F → List (K × List V) → Outcome (List (K × List V))
  unfolding add_values
  read_files formats [] d m = returns m
  read_files formats (filename ∷ filenames) d m = do
    bytes ← or_panic (d.files filename)
    read_files formats filenames d (add_values (formats.decode bytes) m)

  unfoldable pub do_reduce :
      Formats K V F → (K → List V → V) → ℕ → List F → Disk K V F → Outcome (Disk K V F)
  unfolding read_files output_lines
  do_reduce formats reducef task filenames d = do
    m ← read_files formats filenames d []
    returns (record d {
      outputs = λ i. if task == i then some (output_lines reducef m) else d.outputs i;
    })

module _ {K V F : Type 0} ⦃keys : Comparable K⦄ ⦃names : Comparable F⦄ where
  -- The `switch` of `Worker`, for a reply of the coordinator.
  unfoldable pub worker_turn :
      Formats K V F
      → (F → List ℕ → List (KeyValue K V))
      → (K → List V → V)
      → RequestTaskReply F
      → Disk K V F
      → Outcome (Disk K V F × Turn F)
  unfolding do_map do_reduce
  worker_turn formats mapf reducef reply d = elim reply.task_type [
    | TaskKind.map_task ↦ elim reply.filenames [
      | [] ↦ returns (d, Turn.again)
      | filename ∷ _ ↦ (do
        (d', made) ← do_map formats mapf reply.task_index filename reply.n_reduce d
        returns (
          d',
          Turn.reports (record {
            task_type = pos 0;
            task_index = pos reply.task_index;
            intermediate_filenames = made;
          }),
        ))
    ]
    | TaskKind.reduce_task ↦ elim reply.filenames [
      | [] ↦ returns (d, Turn.again)
      | filename ∷ filenames ↦ (do
        d' ← do_reduce formats reducef reply.task_index (filename ∷ filenames) d
        returns (
          d',
          Turn.reports (record {
            task_type = pos 1;
            task_index = pos reply.task_index;
            intermediate_filenames = [];
          }),
        ))
    ]
    | TaskKind.all_done ↦ returns (d, Turn.exits)
    | TaskKind.sleep_a_bit ↦ returns (d, Turn.again)
  ]

  -- The loop of `Worker` over the replies of the coordinator, each with whether its answer to the report
  -- says that all is done: the disk at the end and the reports, in their order.
  unfoldable pub serve :
      Formats K V F
      → (F → List ℕ → List (KeyValue K V))
      → (K → List V → V)
      → List (RequestTaskReply F × Bool)
      → Disk K V F
      → Outcome (Disk K V F × List (ReportTaskDoneArgs F))
  unfolding worker_turn
  serve formats mapf reducef [] d = returns (d, [])
  serve formats mapf reducef ((reply, over) ∷ replies) d = do
    (d', turn) ← worker_turn formats mapf reducef reply d
    elim turn [
      | again ↦ serve formats mapf reducef replies d'
      | exits ↦ returns (d', [])
      | reports args ↦ elim over [
        | true ↦ returns (d', args ∷ [])
        | false ↦ (do
          (last, more) ← serve formats mapf reducef replies d'
          returns (last, args ∷ more))
      ]
    ]
