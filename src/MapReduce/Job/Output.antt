-- ===== src/MapReduce/Job/Output.antt =====
-- mr/worker.go against mr-main/mrsequential.go: the workers print the output that the sequential program
-- prints.
use mathlib.Core.Path.{ap₂}
use mathlib.Core.List.{Perm}
use mathlib.Core.List.Perm
use native.Mathlib.Nat.{mod-lt}
use cs_350_boston_u.Base.{
  ℕ, zero, suc, ◌<◌, ◌%◌, ltb, ◌≡◌, ◌↔◌, refl, sym, subst, ap, ◌∙◌, Bool, true, Option, some, none,
  List, [], ◌++◌, map, length, if◌then◌else◌, Returns, Returns-map, arith, inr,
}
use cs_350_boston_u.Base.Comparable.{Comparable}
use cs_350_boston_u.MapReduce.Coordinator.{RequestTaskReply, ReportTaskDoneArgs}
use cs_350_boston_u.MapReduce.Job.Orders.{pick, listed-Perm, pairs_of-Perm, read_inputs-pairs_of}
use cs_350_boston_u.MapReduce.Worker.{KeyValue, Formats, Disk, ihash, serve}
use cs_350_boston_u.MapReduce.Worker.Files.{Reads}
use cs_350_boston_u.MapReduce.Keys.{
  values_of, values_of-Perm, outputs_for, outputs_for-append, output_of, output_of-Perm, OrderFree,
}
use cs_350_boston_u.MapReduce.Sequential.{sequential}
use cs_350_boston_u.MapReduce.Sequential.Runs.{Ordering, Sorts, outputs_for-reduce_runs}
use cs_350_boston_u.MapReduce.Job.{listed, map_turn, reduce_turn, pairs_of, Readable, Plain}
use cs_350_boston_u.MapReduce.Job.Maps.{serve-maps}
use cs_350_boston_u.MapReduce.Job.Reduces.{
  files_of, Printed, AllPrinted, outputs_for-lines_of, serve-reduces,
}

-- The lines of the first output files, one file after the other; a file that is not there has none.
module _ {K V : Type 0} where
  abbrev pub lines_in : Option (List (K × V)) → List (K × V)
  lines_in none = []
  lines_in (some lines) = lines

module _ {K V F : Type 0} where
  abbrev pub all_lines : ℕ → Disk K V F → List (K × V)
  all_lines zero d = []
  all_lines (suc r) d = all_lines r d ++ lines_in (d.outputs r)

module _ {K V F : Type 0} ⦃keys : Comparable K⦄ (formats : Formats K V F)
    (mapf : F → List ℕ → List (KeyValue K V)) (reducef : K → List V → V) (n : ℕ) (input : ℕ → F)
    (content : ℕ → List ℕ) where
  pub outputs_for-all_lines :
      (order : ℕ → List ℕ) (d : Disk K V F) (key : K) (r : ℕ)
      → ((j : ℕ) → j < r → Printed formats mapf reducef n input content order d j)
      → outputs_for key (all_lines r d) ≡ (
          if ltb (ihash formats key % n) r
          then output_of reducef key
              (values_of key (pairs_of mapf input content (order (ihash formats key % n))))
          else [])
  outputs_for-all_lines order d key zero printed = ground arith
  outputs_for-all_lines order d key (suc r) printed =
      let here = outputs_for-lines_of formats mapf reducef n input content r key (order r) in
      let before = outputs_for-all_lines order d key r (λ j lt. printed j (omega arith)) in
      outputs_for-append key (all_lines r d) (lines_in (d.outputs r))
      ∙ ap₂ (λ a b. a ++ b) before
          (ap (λ o. outputs_for key (lines_in o)) (printed r (omega arith)) ∙ here)
      ∙ pick (ihash formats key % n) r
          (λ j. output_of reducef key (values_of key (pairs_of mapf input content (order j))))

module _ {K V F : Type 0} ⦃keys : Comparable K⦄ (mapf : F → List ℕ → List (KeyValue K V))
    (reducef : K → List V → V) (input : ℕ → F) (content : ℕ → List ℕ) where
  pub outputs_for-sequential :
      (less : Ordering K) (sort : List (KeyValue K V) → List (KeyValue K V))
      → Sorts K V less sort
      → OrderFree reducef
      → (m : ℕ) (tasks : List ℕ) (d : Disk K V F) (key : K) → Readable input content m d
      → ((t : ℕ) → listed t tasks ≡ true → t < m)
      → Returns
          (λ lines.
            outputs_for key lines
            ≡ output_of reducef key (values_of key (pairs_of mapf input content tasks)))
          (sequential sort mapf reducef (map input tasks) d)
  unfolding sequential
  outputs_for-sequential less sort sorts free m tasks d key there below =
      let pairs = pairs_of mapf input content tasks in
      rw (read_inputs-pairs_of mapf input content m tasks d there below) (
        outputs_for-reduce_runs less (length (sort pairs)) reducef key (sort pairs) (omega arith)
          (sorts.ascending pairs)
        ∙ output_of-Perm reducef free key (values_of key (sort pairs)) (values_of key pairs)
            (values_of-Perm key (sorts.permutes pairs)))

module _ {K V F : Type 0} ⦃keys : Comparable K⦄ ⦃names : Comparable F⦄ (formats : Formats K V F)
    (mapf : F → List ℕ → List (KeyValue K V)) (reducef : K → List V → V) (n : ℕ) (input : ℕ → F)
    (content : ℕ → List ℕ) where
  -- The turns of a job: those of its map tasks, then those of its reduce tasks, which have the files of
  -- the map tasks in these orders.
  abbrev pub turns : (ℕ → List ℕ) → List ℕ → List ℕ → List (RequestTaskReply F × Bool)
  turns order maps reduces =
      map (map_turn input n) maps
      ++ map (λ j. reduce_turn n j (files_of formats mapf n input content j (order j))) reduces

  outputs_for-turns :
      (reads : Reads formats) (m : ℕ) (order : ℕ → List ℕ) (maps reduces : List ℕ) (d : Disk K V F)
      (key : K)
      → 0 < n
      → Plain formats input m
      → Readable input content m d
      → ((t : ℕ) → listed t maps ≡ true → t < m)
      → ((j : ℕ) → listed j reduces ≡ true → j < n)
      → ((j : ℕ) → j < n → listed j reduces ≡ true)
      → ((j : ℕ) → (order j ≡ []) → ⊥)
      → ((j t : ℕ) → listed t (order j) ≡ true → listed t maps ≡ true)
      → Returns
          (λ o.
            outputs_for key (all_lines n o.0)
            ≡ output_of reducef key
                (values_of key (pairs_of mapf input content (order (ihash formats key % n)))))
          (serve formats mapf reducef (turns order maps reduces) d)
  outputs_for-turns reads m order maps reduces d key pos_n plain there below_m below_n all some_file
        mapped =
      let lt : ihash formats key % n < n = mod-lt (ihash formats key) pos_n in
      let in_range : ltb (ihash formats key % n) n ≡ true = ground (arith, lt) in
      serve-maps formats mapf reducef n input content reads m plain maps
        (map (λ j. reduce_turn n j (files_of formats mapf n input content j (order j))) reduces) d
        (λ last.
          outputs_for key (all_lines n last)
          ≡ output_of reducef key
              (values_of key (pairs_of mapf input content (order (ihash formats key % n)))))
        below_m there
        (λ d' there' written.
          Returns-map {A = Disk K V F × List (ReportTaskDoneArgs F)}
            {P = λ o. AllPrinted formats mapf reducef n input content order reduces d' o.0} _
            (λ o printed.
              outputs_for-all_lines formats mapf reducef n input content order o.0 key n
                (λ j lt. printed j (inr (all j lt)))
              ∙ rw in_range refl)
            (serve-reduces formats mapf reducef n input content reads order reduces d' below_n
              some_file (λ j t h. written t (inr (mapped j t h)))))

  -- Take a plugin whose output for a key does not depend on the order of the values, a sort that sorts,
  -- formats that read back what they write, and input files that are there, none of them with the name
  -- of an intermediate file. Workers do each map task at least once, and then each reduce task at least
  -- once, in any order, each reduce task with the files of all the map tasks in any order. Then no call
  -- fails, and in all the output files together each key has the output that the sequential program
  -- prints for it on the same input files.
  pub workers_sequential :
      (reads : Reads formats) (less : Ordering K) (sort : List (KeyValue K V) → List (KeyValue K V))
      → Sorts K V less sort
      → OrderFree reducef
      → (tasks : List ℕ) (order : ℕ → List ℕ) (maps reduces : List ℕ) (m : ℕ) (d : Disk K V F)
        (key : K)
      → 0 < n
      → ((tasks ≡ []) → ⊥)
      → Plain formats input m
      → Readable input content m d
      → ((t : ℕ) → listed t tasks ≡ true → listed t maps ≡ true)
      → ((t : ℕ) → listed t maps ≡ true → t < m)
      → ((j : ℕ) → (listed j reduces ≡ true) ↔ (j < n))
      → ((j : ℕ) → Perm (order j) tasks)
      → Returns
          (λ o.
            Returns
              (λ lines. outputs_for key (all_lines n o.0) ≡ outputs_for key lines)
              (sequential sort mapf reducef (map input tasks) d))
          (serve formats mapf reducef (turns order maps reduces) d)
  workers_sequential reads less sort sorts free tasks order maps reduces m d key pos_n some_task
        plain there mapped below reduced orders =
      let h = ihash formats key % n in
      Returns-map {A = Disk K V F × List (ReportTaskDoneArgs F)}
        {P = λ o.
          outputs_for key (all_lines n o.0)
          ≡ output_of reducef key (values_of key (pairs_of mapf input content (order h)))}
        _
        (λ o e.
          Returns-map {A = List (K × V)}
            {P = λ lines.
              outputs_for key lines
              ≡ output_of reducef key (values_of key (pairs_of mapf input content tasks))}
            _
            (λ lines e'.
              e
              ∙ output_of-Perm reducef free key _ _
                  (values_of-Perm key (pairs_of-Perm mapf input content (order h) tasks (orders h)))
              ∙ sym e')
            (outputs_for-sequential mapf reducef input content less sort sorts free m tasks d key
              there (λ t l. below t (mapped t l))))
        (outputs_for-turns reads m order maps reduces d key pos_n plain there below
          (λ j l. (reduced j).0 l) (λ j lt. (reduced j).1 lt)
          (λ j empty. some_task (sym (Perm.nil-eq (subst (λ l. Perm l tasks) empty (orders j)))))
          (λ j t l. mapped t (sym (listed-Perm t (order j) tasks (orders j)) ∙ l)))
