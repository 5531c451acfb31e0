-- ===== src/MapReduce/Tests.antt =====
-- Witnesses on a job of two files whose bytes are words, with two reduce tasks; keys and values are
-- numbers.
mod Sorting
mod Jobs
use mathlib.Core.List.{Perm}
use mathlib.Core.List.Perm
use cs_350_boston_u.Base.{
  ℕ, zero, suc, ◌<◌, ◌==◌, ltb, ◌≡◌, ◌↔◌, refl, ap, Bool, true, false, ◌&&◌, Option, none, some,
  List, [], ◌∷◌, map, if◌then◌else◌, Returns, arith,
}
use cs_350_boston_u.Base.Int.{ℤ, pos}
use cs_350_boston_u.Base.Comparable.{Comparable}
use cs_350_boston_u.MapReduce.Worker.{KeyValue, Formats, Disk, serve, worker_turn}
use cs_350_boston_u.MapReduce.Worker.Files.{Reads}
use cs_350_boston_u.MapReduce.Keys.{outputs_for}
use cs_350_boston_u.MapReduce.Sequential.{sequential}
use cs_350_boston_u.MapReduce.Job.{listed}
use cs_350_boston_u.MapReduce.Job.Output.{all_lines, turns, workers_sequential}
use cs_350_boston_u.MapReduce.Job.{map_turn}
use cs_350_boston_u.MapReduce.Job.Filing.{upto}
use cs_350_boston_u.MapReduce.Job.Work.{work, work-sequential}
use cs_350_boston_u.MapReduce.Job.Reporting.{Reported, worker_turn-report_task_done}
use cs_350_boston_u.MapReduce.Coordinator.{
  Status, TaskKind, Task, Coordinator, make_coordinator, done, all_completed, all_map_tasks_done,
  all_reduce_tasks_done,
}
use cs_350_boston_u.MapReduce.Apps.Wc.{map_words, reduce_length, reduce_length-OrderFree}
use cs_350_boston_u.MapReduce.Tests.Sorting.{numbers, by_number, sort_pairs, sort_pairs-Sorts}

data Name : Type 0 where
  input_file : ℕ → Name
  intermediate : ℕ → ℕ → Name

abbrev same_name : Name → Name → Bool
same_name (Name.input_file a) (Name.input_file b) = a == b
same_name (Name.input_file a) (Name.intermediate x y) = false
same_name (Name.intermediate x y) (Name.input_file b) = false
same_name (Name.intermediate x y) (Name.intermediate x' y') = (x == x') && (y == y')

same_name_iff : (f g : Name) → (same_name f g ≡ true) ↔ (f ≡ g)
same_name_iff f g = ground arith

instance abbrev file_names : Comparable Name
file_names = record { eqb = same_name; eqb_iff = same_name_iff }

abbrev scan : Name → Option (ℤ × ℤ)
scan (Name.input_file a) = none
scan (Name.intermediate x y) = some (pos x, pos y)

abbrev encode : List (KeyValue ℕ ℕ) → List ℕ
encode [] = []
encode (kv ∷ kvs) = kv.key ∷ kv.value ∷ encode kvs

abbrev decode : List ℕ → List (KeyValue ℕ ℕ)
decode [] = []
decode (k ∷ []) = []
decode (k ∷ v ∷ bytes) = record { key = k; value = v } ∷ decode bytes

abbrev formats : Formats ℕ ℕ Name
formats = record {
  sum32 = λ k. k;
  file_name = Name.intermediate;
  scan = scan;
  encode = encode;
  decode = decode;
}

decode-encode : (kvs : List (KeyValue ℕ ℕ)) → decode (encode kvs) ≡ kvs
decode-encode [] = refl
decode-encode (kv ∷ kvs) = ap (λ r. kv ∷ r) (decode-encode kvs)

formats-Reads : Reads formats
formats-Reads = record { scan-file_name = λ x y. refl; decode-encode = decode-encode }

abbrev content : ℕ → List ℕ
content zero = 3 ∷ 8 ∷ 3 ∷ []
content (suc t) = 8 ∷ 3 ∷ 5 ∷ []

abbrev inputs : Disk ℕ ℕ Name
inputs = record {
  files = λ f. elim f [
    | Name.input_file t ↦ if ltb t 2 then some (content t) else none
    | Name.intermediate x y ↦ none
  ];
  outputs = λ i. none;
}

abbrev words : Name → List ℕ → List (KeyValue ℕ ℕ)
words = map_words (λ bytes. bytes) 1

abbrev number_of : ℕ → List ℕ → ℕ
number_of = reduce_length (λ n. n)

-- Map task 1 is done first, and done again after task 0; reduce task 0 has the files in the other order.
abbrev orders : ℕ → List ℕ
orders zero = 1 ∷ 0 ∷ []
orders (suc j) = 0 ∷ 1 ∷ []

orders-Perm : (j : ℕ) → Perm (orders j) (0 ∷ 1 ∷ [])
orders-Perm zero = Perm.swap 0 1 []
orders-Perm (suc j) = Perm.refl _

inputs-Readable : (t : ℕ) → t < 2 → inputs.files (Name.input_file t) ≡ some (content t)
inputs-Readable t lt = ground (arith, lt)

all_mapped : (t : ℕ) → listed t (0 ∷ 1 ∷ []) ≡ true → listed t (1 ∷ 0 ∷ 1 ∷ []) ≡ true
all_mapped t h = ground (arith, h)

below_two : (t : ℕ) → listed t (1 ∷ 0 ∷ 1 ∷ []) ≡ true → t < 2
below_two t h = ground (arith, h)

reduced_iff : (j : ℕ) → (listed j (1 ∷ 0 ∷ []) ≡ true) ↔ (j < 2)
reduced_iff j = ground arith

workers_sequential_example :
    Returns
      (λ o.
        Returns
          (λ lines. outputs_for 3 (all_lines 2 o.0) ≡ outputs_for 3 lines)
          (sequential sort_pairs words number_of (map Name.input_file (0 ∷ 1 ∷ [])) inputs))
      (serve formats words number_of
        (turns formats words number_of 2 Name.input_file content orders
          (1 ∷ 0 ∷ 1 ∷ [])
          (1 ∷ 0 ∷ []))
        inputs)
workers_sequential_example =
    workers_sequential formats words number_of 2 Name.input_file content formats-Reads by_number
      sort_pairs sort_pairs-Sorts (reduce_length-OrderFree (λ n. n)) (0 ∷ 1 ∷ []) orders
      (1 ∷ 0 ∷ 1 ∷ []) (1 ∷ 0 ∷ []) 2 inputs 3 (omega arith) (λ e. cc) (λ t lt. refl)
      inputs-Readable all_mapped below_two reduced_iff orders-Perm

abbrev job : Coordinator Name
unfolding make_coordinator
job = make_coordinator (Name.input_file 0 ∷ Name.input_file 1 ∷ []) 2

abbrev new_task : TaskKind → ℕ → List Name → Task Name
new_task kind i files = record {
  idx = i;
  all_filenames = files;
  status = Status.unassigned;
  kind = kind;
  start_time = 0;
}

worker_turn-report_task_done_example :
    Returns
      (Reported formats job 1 0 1
        (new_task TaskKind.map_task 1 (Name.input_file 1 ∷ []))
        (new_task TaskKind.reduce_task 1 []))
      (worker_turn formats words number_of (map_turn Name.input_file 2 1).0 inputs)
unfolding make_coordinator job all_map_tasks_done all_reduce_tasks_done all_completed
worker_turn-report_task_done_example =
    worker_turn-report_task_done formats words number_of formats-Reads job inputs Name.input_file
      (content 1) 1 0 1 (new_task TaskKind.map_task 1 (Name.input_file 1 ∷ []))
      (new_task TaskKind.reduce_task 1 []) refl refl refl (omega arith) refl refl (omega arith)

abbrev times : List ℕ
times = 11 ∷ 12 ∷ 13 ∷ 14 ∷ 15 ∷ []

work-sequential_example :
    Returns
      (λ o.
        (o.2 ≡ false)
        × (done o.0 ≡ true)
        × Returns
            (λ lines. outputs_for 3 (all_lines 2 o.1) ≡ outputs_for 3 lines)
            (sequential sort_pairs words number_of (map Name.input_file (upto 2)) inputs))
      (work formats words number_of times
        (make_coordinator (map Name.input_file (upto 2)) 2)
        inputs)
work-sequential_example =
    work-sequential formats words number_of 2 2 Name.input_file content formats-Reads (omega arith)
      (λ t lt. refl) by_number sort_pairs sort_pairs-Sorts (reduce_length-OrderFree (λ n. n)) times
      inputs 3 (omega arith) inputs-Readable (omega arith) (omega arith)
