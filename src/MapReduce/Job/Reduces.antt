-- ===== src/MapReduce/Job/Reduces.antt =====
-- mr/worker.go: the output files after the turns of reduce tasks, done in any order, and some of them
-- again. Reduce task `j` has the files of the map tasks in the order `order j`.
use cs_350_boston_u.Base.{
  ℕ, ◌<◌, ◌%◌, ◌==◌, ◌≡◌, ◌⊎◌, refl, sym, subst, ap, ◌∙◌, true, some, List, [], ◌∷◌, ◌++◌, map,
  if◌then◌else◌, returns, ◌>>=◌, Returns, Returns-map, arith, Bool-cases, inl, inr, ==_iff,
}
use cs_350_boston_u.Base.Int.{pos}
use cs_350_boston_u.Base.Comparable.{Comparable}
use cs_350_boston_u.MapReduce.Coordinator.{ReportTaskDoneArgs}
use cs_350_boston_u.MapReduce.Worker.{
  KeyValue, Formats, Disk, Turn, ihash, bucket, add_values, read_files, output_lines, do_reduce,
  worker_turn, serve,
}
use cs_350_boston_u.MapReduce.Worker.Files.{Reads, values_of-bucket}
use cs_350_boston_u.MapReduce.Worker.Groups.{outputs_for-output_lines-add_values}
use cs_350_boston_u.MapReduce.Keys.{values_of, values_of-append, outputs_for, output_of}
use cs_350_boston_u.MapReduce.Job.{listed, reduce_turn, pairs_of, Written, Returns-report}

module _ {K V : Type 0} ⦃keys : Comparable K⦄ where
  add_values-append :
      (xs ys : List (KeyValue K V)) (m : List (K × List V))
      → add_values (xs ++ ys) m ≡ add_values ys (add_values xs m)
  unfolding add_values
  add_values-append [] ys m = refl
  add_values-append (x ∷ xs) ys m = add_values-append xs ys _

module _ {K V F : Type 0} (formats : Formats K V F) (mapf : F → List ℕ → List (KeyValue K V))
    (n : ℕ) (input : ℕ → F) (content : ℕ → List ℕ) where
  -- The pairs that reduce task `j` reads.
  abbrev pub buckets : ℕ → List ℕ → List (KeyValue K V)
  buckets j [] = []
  buckets j (t ∷ ts) = bucket formats n j (mapf (input t) (content t)) ++ buckets j ts

  abbrev pub files_of : ℕ → List ℕ → List F
  files_of j ts = map (λ t. formats.file_name t j) ts

module _ {K V F : Type 0} ⦃keys : Comparable K⦄ (formats : Formats K V F)
    (mapf : F → List ℕ → List (KeyValue K V)) (n : ℕ) (input : ℕ → F) (content : ℕ → List ℕ) where
  values_of-buckets :
      (j : ℕ) (key : K) (ts : List ℕ)
      → values_of key (buckets formats mapf n input content j ts) ≡ (
          if ihash formats key % n == j then values_of key (pairs_of mapf input content ts) else [])
  values_of-buckets j key [] = ground arith
  values_of-buckets j key (t ∷ ts) =
      values_of-append key (bucket formats n j (mapf (input t) (content t)))
        (buckets formats mapf n input content j ts)
      ∙ rw
          (
            values_of-bucket formats n j key (mapf (input t) (content t)),
            values_of-buckets j key ts,
          )
          (elim (Bool-cases (ihash formats key % n == j)) [
            | inl at ↦ rw at (
                sym (
                  values_of-append key (mapf (input t) (content t))
                    (pairs_of mapf input content ts)))
            | inr off ↦ rw off refl
          ])

  module _ (reads : Reads formats) where
    read_files-add_values :
        (j : ℕ) (ts : List ℕ) (d : Disk K V F) (m : List (K × List V))
        → j < n
        → ((t : ℕ) → listed t ts ≡ true → Written formats mapf n input content d t)
        → read_files formats (files_of formats mapf n input content j ts) d m
          ≡ returns (add_values (buckets formats mapf n input content j ts) m)
    unfolding read_files add_values
    read_files-add_values j [] d m lt written = refl
    read_files-add_values j (t ∷ ts) d m lt written =
        rw
          (
            written t (ground arith) j lt,
            reads.decode-encode (bucket formats n j (mapf (input t) (content t))),
          )
          (read_files-add_values j ts d
              (add_values (bucket formats n j (mapf (input t) (content t))) m) lt
              (λ u h. written u (ground (arith, h)))
            ∙ ap returns (
                sym (
                  add_values-append (bucket formats n j (mapf (input t) (content t)))
                    (buckets formats mapf n input content j ts) m)))

module _ {K V F : Type 0} ⦃keys : Comparable K⦄ (formats : Formats K V F)
    (mapf : F → List ℕ → List (KeyValue K V)) (reducef : K → List V → V) (n : ℕ) (input : ℕ → F)
    (content : ℕ → List ℕ) where
  -- The lines that reduce task `j` prints for the files in this order.
  abbrev pub lines_of : ℕ → List ℕ → List (K × V)
  lines_of j ts = output_lines reducef (add_values (buckets formats mapf n input content j ts) [])

  abbrev pub reduced : Disk K V F → ℕ → List ℕ → Disk K V F
  reduced d j ts = record d { outputs = λ i. if j == i then some (lines_of j ts) else d.outputs i }

  abbrev pub Printed : (ℕ → List ℕ) → Disk K V F → ℕ → Type 0
  Printed order d j = d.outputs j ≡ some (lines_of j (order j))

  -- A key has its output in the file of its hash, and only there.
  pub outputs_for-lines_of :
      (j : ℕ) (key : K) (ts : List ℕ)
      → outputs_for key (lines_of j ts) ≡ (
          if ihash formats key % n == j
          then output_of reducef key (values_of key (pairs_of mapf input content ts))
          else [])
  outputs_for-lines_of j key ts =
      outputs_for-output_lines-add_values reducef key (buckets formats mapf n input content j ts)
      ∙ rw (values_of-buckets formats mapf n input content j key ts)
          (elim (Bool-cases (ihash formats key % n == j)) [
            | inl at ↦ rw at refl
            | inr off ↦ rw off refl
          ])

  pub reduced-Printed :
      (order : ℕ → List ℕ) (d : Disk K V F) (j : ℕ) → Printed order (reduced d j (order j)) j
  reduced-Printed order d j = let e : (j == j) ≡ true = ground arith in rw e refl

  pub reduced-keeps :
      (order : ℕ → List ℕ) (d : Disk K V F) (j i : ℕ)
      → Printed order d i
      → Printed order (reduced d j (order j)) i
  reduced-keeps order d j i printed = elim (Bool-cases (j == i)) [
    | inl same ↦
        subst (Printed order (reduced d j (order j))) ((==_iff j i).0 same)
          (reduced-Printed order d j)
    | inr other ↦ rw other printed
  ]

  -- What the reduce tasks had printed before is printed, and what the tasks of the list print.
  abbrev pub AllPrinted : (ℕ → List ℕ) → List ℕ → Disk K V F → Disk K V F → Type 0
  AllPrinted order done d last =
      (j : ℕ) → (Printed order d j ⊎ (listed j done ≡ true)) → Printed order last j

  AllPrinted-reduced :
      (order : ℕ → List ℕ) (j : ℕ) (done : List ℕ) (d last : Disk K V F)
      → AllPrinted order done (reduced d j (order j)) last
      → AllPrinted order (j ∷ done) d last
  AllPrinted-reduced order j done d last all i h = elim h [
    | inl printed ↦ all i (inl (reduced-keeps order d j i printed))
    | inr in_list ↦ elim (Bool-cases (i == j)) [
      | inl same ↦ all i (
          inl (
            subst (Printed order (reduced d j (order j))) (sym ((==_iff i j).0 same))
              (reduced-Printed order d j)))
      | inr other ↦ all i (inr (ground (arith, in_list, other)))
    ]
  ]

  unfoldable pub report_reduce : ℕ → ReportTaskDoneArgs F
  report_reduce j = record { task_type = pos 1; task_index = pos j; intermediate_filenames = [] }

  module _ ⦃names : Comparable F⦄ (reads : Reads formats) where
    pub reduce_served :
        (j : ℕ) (ts : List ℕ) (d : Disk K V F)
        → ((ts ≡ []) → ⊥)
        → j < n
        → ((t : ℕ) → listed t ts ≡ true → Written formats mapf n input content d t)
        → worker_turn formats mapf reducef
            (reduce_turn n j (files_of formats mapf n input content j ts)).0
            d
          ≡ returns (reduced d j ts, Turn.reports (report_reduce j))
    unfolding worker_turn do_reduce report_reduce
    reduce_served j [] d some_file lt written = absurd (some_file refl)
    reduce_served j (t ∷ ts) d some_file lt written =
        rw (read_files-add_values formats mapf n input content reads j (t ∷ ts) d [] lt written)
          refl

    serve-reduce_turn :
        (j : ℕ) (ts : List ℕ) (d : Disk K V F) (rest : _)
        → ((ts ≡ []) → ⊥)
        → j < n
        → ((t : ℕ) → listed t ts ≡ true → Written formats mapf n input content d t)
        → serve formats mapf reducef
            (reduce_turn n j (files_of formats mapf n input content j ts) ∷ rest)
            d
          ≡ (do
            (last, more) ← serve formats mapf reducef rest (reduced d j ts)
            returns (last, report_reduce j ∷ more))
    unfolding serve
    serve-reduce_turn j ts d rest some_file lt written =
        rw (reduce_served j ts d some_file lt written) refl

    pub serve-reduces :
        (order : ℕ → List ℕ) (done : List ℕ) (d : Disk K V F)
        → ((j : ℕ) → listed j done ≡ true → j < n)
        → ((j : ℕ) → (order j ≡ []) → ⊥)
        → ((j t : ℕ) → listed t (order j) ≡ true → Written formats mapf n input content d t)
        → Returns
            (λ o. AllPrinted order done d o.0)
            (serve formats mapf reducef
              (map (λ j. reduce_turn n j (files_of formats mapf n input content j (order j))) done)
              d)
    unfolding serve
    serve-reduces order [] d below some_file written =
        λ j h. elim h [ inl printed ↦ printed | inr none_listed ↦ cc ]
    serve-reduces order (j ∷ done) d below some_file written =
        subst (Returns (λ o. AllPrinted order (j ∷ done) d o.0))
          (sym (
            serve-reduce_turn j (order j) d
              (map (λ j. reduce_turn n j (files_of formats mapf n input content j (order j))) done)
              (some_file j) (below j (ground arith)) (written j)))
          (Returns-report (AllPrinted order (j ∷ done) d) _ (report_reduce j) (
            Returns-map _ (λ o. AllPrinted-reduced order j done d o.0)
              (serve-reduces order done (reduced d j (order j)) (λ i h. below i (ground (arith, h)))
                some_file written)))
