-- ===== src/MapReduce/Job/Maps.antt =====
-- mr/worker.go: the disk after the turns of map tasks, done in any order, and some of them again.
use cs_350_boston_u.Base.{
  ℕ, ◌<◌, ◌==◌, ◌≡◌, ◌⊎◌, refl, sym, subst, ◌∙◌, true, some, List, [], ◌∷◌, ◌++◌, map, returns,
  ◌>>=◌, Returns, arith, Bool-cases, inl, inr, ==_iff,
}
use cs_350_boston_u.Base.Int.{pos}
use cs_350_boston_u.Base.Comparable.{Comparable}
use cs_350_boston_u.MapReduce.Coordinator.{ReportTaskDoneArgs}
use cs_350_boston_u.MapReduce.Worker.{
  KeyValue, Formats, Disk, file_names, write_buckets, do_map, worker_turn, serve,
}
use cs_350_boston_u.MapReduce.Worker.Files.{
  Reads, write_buckets-other, write_buckets-bucket, other_file, plain_file,
}
use cs_350_boston_u.MapReduce.Job.{listed, map_turn, Readable, Plain, Written, Returns-report}

module _ {K V F : Type 0} ⦃names : Comparable F⦄ (formats : Formats K V F)
    (mapf : F → List ℕ → List (KeyValue K V)) (n : ℕ) (input : ℕ → F) (content : ℕ → List ℕ) where
  abbrev pub mapped : Disk K V F → ℕ → Disk K V F
  mapped d t = write_buckets formats n 0 t n (mapf (input t) (content t)) d

  module _ (reads : Reads formats) where
    pub mapped-Readable :
        (m : ℕ) (d : Disk K V F) (t : ℕ)
        → Plain formats input m
        → Readable input content m d
        → Readable input content m (mapped d t)
    mapped-Readable m d t plain there u lt =
        write_buckets-other formats n 0 t n (mapf (input t) (content t)) d (input u)
          (λ j le. plain_file formats reads t j (input u) (plain u lt))
        ∙ there u lt

    pub mapped-Written :
        (d : Disk K V F) (t : ℕ) → Written formats mapf n input content (mapped d t) t
    mapped-Written d t j lt =
        write_buckets-bucket formats reads n 0 t n (mapf (input t) (content t)) d j (omega arith)
          (omega arith)

    pub mapped-keeps :
        (d : Disk K V F) (t u : ℕ)
        → Written formats mapf n input content d u
        → Written formats mapf n input content (mapped d t) u
    mapped-keeps d t u written = elim (Bool-cases (t == u)) [
      | inl same ↦
          subst (Written formats mapf n input content (mapped d t)) ((==_iff t u).0 same)
            (mapped-Written d t)
      | inr other ↦ λ j lt.
          write_buckets-other formats n 0 t n (mapf (input t) (content t)) d (formats.file_name u j)
            (λ k le.
              other_file formats reads t k u j (λ same _. absurd (ground (arith, same, other))))
          ∙ written j lt
    ]

module _ {K V F : Type 0} ⦃keys : Comparable K⦄ ⦃names : Comparable F⦄ (formats : Formats K V F)
    (mapf : F → List ℕ → List (KeyValue K V)) (reducef : K → List V → V) (n : ℕ) (input : ℕ → F)
    (content : ℕ → List ℕ) where
  report_map : ℕ → ReportTaskDoneArgs F
  report_map t = record {
    task_type = pos 0;
    task_index = pos t;
    intermediate_filenames = file_names formats n 0 t;
  }

  serve-map_turn :
      (d : Disk K V F) (t : ℕ) (rest : _)
      → d.files (input t) ≡ some (content t)
      → serve formats mapf reducef (map_turn input n t ∷ rest) d ≡ (do
        (last, more) ← serve formats mapf reducef rest (mapped formats mapf n input content d t)
        returns (last, report_map t ∷ more))
  unfolding serve worker_turn do_map report_map
  serve-map_turn d t rest there = rw there refl

  module _ (reads : Reads formats) where
    pub serve-maps :
        (m : ℕ)
        → Plain formats input m
        → (done : List ℕ) (rest : _) (d : Disk K V F) (P : Disk K V F → Type 0)
        → ((t : ℕ) → listed t done ≡ true → t < m)
        → Readable input content m d
        → ((d' : Disk K V F)
            → Readable input content m d'
            → ((t : ℕ)
                → (Written formats mapf n input content d t ⊎ (listed t done ≡ true))
                → Written formats mapf n input content d' t)
            → Returns (λ o. P o.0) (serve formats mapf reducef rest d'))
        → Returns (λ o. P o.0) (serve formats mapf reducef (map (map_turn input n) done ++ rest) d)
    serve-maps m plain [] rest d P below there k =
        k d there (λ t h. elim h [ inl written ↦ written | inr none_listed ↦ cc ])
    serve-maps m plain (t ∷ done) rest d P below there k =
        let at = there t (below t (ground arith)) in
        subst (Returns (λ o. P o.0))
          (sym (serve-map_turn d t (map (map_turn input n) done ++ rest) at))
          (Returns-report P _ (report_map t) (
            serve-maps m plain done rest (mapped formats mapf n input content d t) P
              (λ u h. below u (ground (arith, h)))
              (mapped-Readable formats mapf n input content reads m d t plain there)
              (λ d' there' all. k d' there' (λ u h. elim h [
                | inl written ↦
                    all u (inl (mapped-keeps formats mapf n input content reads d t u written))
                | inr in_list ↦ elim (Bool-cases (u == t)) [
                  | inl same ↦ all u (
                      inl (
                        subst
                          (Written formats mapf n input content
                            (mapped formats mapf n input content d t))
                          (sym ((==_iff u t).0 same))
                          (mapped-Written formats mapf n input content reads d t)))
                  | inr other ↦ all u (inr (ground (arith, in_list, other)))
                ]
              ]))))
