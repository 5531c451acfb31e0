-- ===== src/MapReduce/Apps/Processes/Counted.antt =====
-- What the plugins that look at processes count, and when their calls return.
use mathlib.Core.List.{Perm}
use cs_350_boston_u.Base.{
  ℕ, zero, suc, ◌+◌, ◌≤◌, ◌≡◌, refl, ap, ◌∙◌, inl, inr, Bool, Bool-cases, true, false, some, List,
  [], ◌∷◌, length, take, arith, Outcome, returns, panics, Returns, ◌>>=◌,
}
use cs_350_boston_u.Base.Comparable.{Comparable, eqb_self, eqb_true}
use cs_350_boston_u.MapReduce.Keys.{OrderFree}
use cs_350_boston_u.MapReduce.Apps.Processes.{
  count_names, has_file, write_file, remove_file, read_names, Others, System, no_faults, Strings,
  runs, nparallel, map_job, reduce_job, undisturbed, map_timing, reduce_timing, reduce_sorted,
}

module _ {N : Type 0} ⦃files : Comparable N⦄ where
  -- A file that is in the directory can be removed.
  remove_file-has_file :
      (name : N) (names : List N)
      → has_file name names ≡ true
      → (left : List N) × (remove_file name names ≡ returns left)
  unfolding has_file remove_file
  remove_file-has_file name [] there = cc
  remove_file-has_file name (other ∷ names) there = elim (Bool-cases (files.eqb other name)) [
    | inl it ↦ (names, rw it refl)
    | inr differs ↦
        let (left, e) = remove_file-has_file name names (cc) in (other ∷ left, rw (differs, e) refl)
  ]

  -- A file that is not in it cannot.
  remove_file-missing :
      (name : N) (names : List N) → has_file name names ≡ false → remove_file name names ≡ panics
  unfolding has_file remove_file
  remove_file-missing name [] missing = refl
  remove_file-missing name (other ∷ names) missing = elim (Bool-cases (files.eqb other name)) [
    | inl it ↦ cc
    | inr differs ↦ rw (differs, remove_file-missing name names (cc)) refl
  ]

  read_names-has_file :
      (name : N) (names : List N)
      → has_file name names ≡ true
      → read_names names ≡ returns (take 1000000 names)
  unfolding has_file read_names
  read_names-has_file name [] there = cc
  read_names-has_file name (other ∷ names) there = refl

  read_names-panics :
      {B : Type 0} (names : List N) → ◌>>=◌ {B = B} (read_names names) (λ seen. panics) ≡ panics
  unfolding read_names
  read_names-panics [] = refl
  read_names-panics (name ∷ names) = refl

  -- A file among the names that are read, and with the property, is counted.
  count_names-has_file :
      (test : N → Bool) (name : N) (k : ℕ) (names : List N)
      → has_file name names ≡ true
      → test name ≡ true
      → length names ≤ k
      → 1 ≤ count_names test (take k names)
  unfolding has_file count_names
  count_names-has_file test name k [] there holds short = cc
  count_names-has_file test name zero (other ∷ names) there holds short = omega arith
  count_names-has_file test name (suc k) (other ∷ names) there holds short =
      elim (Bool-cases (files.eqb other name)) [
        | inl it ↦
            let e : test other ≡ true = ap test (eqb_true other name it) ∙ holds in
            rw (count_names, e) (omega arith)
        | inr differs ↦
            let rest = count_names-has_file test name k names (cc) holds (omega arith) in
            ground arith
      ]

module _ {S N : Type 0} ⦃files : Comparable N⦄ (system : System S N) where
  -- A call is alone: no other process adds or removes a file, and the file of the call is not there yet. It
  -- counts the processes that run by the names of the directory and its own, and leaves the directory as it
  -- was.
  pub nparallel-alone :
      (phase : S) (pid : ℕ) (names : List N)
      → has_file (system.worker_file phase pid) names ≡ false
      → nparallel system no_faults undisturbed phase pid names
        ≡ returns (
          count_names (runs system phase) (take 1000000 (system.worker_file phase pid ∷ names)),
          names,
        )
  unfolding nparallel write_file remove_file read_names
  nparallel-alone phase pid names new = rw (new, eqb_self (system.worker_file phase pid)) refl

  runs-scan :
      (phase : S) (name : N) (pid : ℕ)
      → system.scan phase name ≡ some pid
      → system.alive pid ≡ true
      → runs system phase name ≡ true
  unfolding runs
  runs-scan phase name pid reads lives = rw (runs, reads) lives

  -- Other processes leave the file of the call until the call removes it, the directory has at most a million
  -- names, `Sscanf` reads the PID back from the name, and the process runs. Then the call returns, and it
  -- counts at least its own process.
  pub nparallel-counts_itself :
      (others : Others N) (phase : S) (pid : ℕ) (names : List N)
      → let own = system.worker_file phase pid in
        let found = others.before_read (write_file own names) in
        has_file own found ≡ true
        → has_file own (others.during_sleep found) ≡ true
        → length found ≤ 1000000
        → system.scan phase own ≡ some pid
        → system.alive pid ≡ true
        → Returns (λ (n, left). 1 ≤ n) (nparallel system no_faults others phase pid names)
  unfolding nparallel read_names
  nparallel-counts_itself others phase pid names there kept short reads lives =
      let own = system.worker_file phase pid in
      let found = others.before_read (write_file own names) in
      let (left, removed) = remove_file-has_file own (others.during_sleep found) kept in
      rw (read_names-has_file own found there, removed)
        (count_names-has_file (runs system phase) own 1000000 found there
          (runs-scan phase own pid reads lives) short)

  -- When another process has removed the file of the call during its sleep, the call panics.
  pub nparallel-file_gone :
      (others : Others N) (phase : S) (pid : ℕ) (names : List N)
      → let own = system.worker_file phase pid in
        has_file own (others.during_sleep (others.before_read (write_file own names))) ≡ false
        → nparallel system no_faults others phase pid names ≡ panics
  unfolding nparallel
  nparallel-file_gone others phase pid names gone =
      let own = system.worker_file phase pid in
      rw
        (remove_file-missing own (others.during_sleep (others.before_read (write_file own names)))
          gone)
        (read_names-panics (others.before_read (write_file own names)))

-- The calls of `Map` of jobcount.go that one process makes, one after another.
module _ {S N : Type 0} ⦃files : Comparable N⦄ (system : System S N) (strings : Strings S) where
  unfoldable pub map_jobs : ℕ → ℕ → ℕ × List N → Outcome (ℕ × List N)
  unfolding map_job
  map_jobs zero me state = returns state
  map_jobs (suc n) me state =
      map_job system strings false me state >>= (λ (pairs, state'). map_jobs n me state')

  -- No file has the name of a call that the process has yet to make.
  abbrev pub FreshFrom : ℕ → ℕ → List N → Type 0
  FreshFrom me count names = (k : ℕ) → count ≤ k → has_file (system.job_file me k) names ≡ false

  map_job-FreshFrom :
      (me count : ℕ) (names : List N)
      → ((j k : ℕ) → system.job_file me j ≡ system.job_file me k → j ≡ k)
      → FreshFrom me count names
      → FreshFrom me (suc count) (system.job_file me count ∷ names)
  unfolding has_file
  map_job-FreshFrom me count names apart fresh k le =
      elim (Bool-cases (files.eqb (system.job_file me count) (system.job_file me k))) [
        | inl it ↦ let late : ⊥ = omega (arith, apart count k (eqb_true _ _ it)) in elim late [ ]
        | inr differs ↦ rw differs (fresh k (omega arith))
      ]

  -- After `n` calls of `Map` of one process, whose files have the prefix, differ from each other and are not
  -- yet there, `Reduce` counts `n` files more than before.
  pub reduce_job-map_jobs :
      (me : ℕ)
      → ((j k : ℕ) → system.job_file me j ≡ system.job_file me k → j ≡ k)
      → ((k : ℕ) → system.is_job (system.job_file me k) ≡ true)
      → (n : ℕ) (count : ℕ) (names : List N) → FreshFrom me count names
      → (map_jobs n me (count, names)
          >>= (λ (count', names'). reduce_job system strings false names'))
        ≡ returns (strings.itoa (n + count_names system.is_job names))
  unfolding map_jobs map_job reduce_job write_file count_names
  reduce_job-map_jobs me apart prefixed zero count names fresh =
      ap (λ c. returns (strings.itoa c)) (omega arith)
  reduce_job-map_jobs me apart prefixed (suc n) count names fresh = rw (fresh count (omega arith)) (
      reduce_job-map_jobs me apart prefixed n (suc count) (system.job_file me count ∷ names)
        (map_job-FreshFrom me count names apart fresh)
      ∙ rw (count_names, prefixed count) (ap (λ c. returns (strings.itoa c)) (omega arith)))

  -- Under the same conditions `Map` of mtiming.go gives the time and the count under keys with its PID, and
  -- `Reduce` of rtiming.go prints the count.
  map_timing-alone :
      (ts : S) (pid : ℕ) (names : List N)
      → let own = system.worker_file strings.map_phase pid in
        has_file own names ≡ false
        → map_timing system strings no_faults undisturbed ts pid names
          ≡ returns (
            record { key = strings.times pid; value = ts }
                ∷ record {
                  key = strings.parallel pid;
                  value =
                      strings.itoa
                        (count_names (runs system strings.map_phase) (take 1000000 (own ∷ names)));
                }
                ∷ [],
            names,
          )
  unfolding map_timing
  map_timing-alone ts pid names new =
      rw (nparallel-alone system strings.map_phase pid names new) refl

  reduce_timing-alone :
      (pid : ℕ) (names : List N)
      → let own = system.worker_file strings.reduce_phase pid in
        has_file own names ≡ false
        → reduce_timing system strings no_faults undisturbed pid names
          ≡ returns (
            strings.itoa
                (count_names (runs system strings.reduce_phase) (take 1000000 (own ∷ names))),
            names,
          )
  unfolding reduce_timing
  reduce_timing-alone pid names new =
      rw (nparallel-alone system strings.reduce_phase pid names new) refl

  -- `Reduce` of mtiming.go does not depend on the order of the values, when values in another order are
  -- sorted to the same list.
  reduce_sorted-OrderFree :
      ((vs ws : List S) → Perm vs ws → strings.sort vs ≡ strings.sort ws)
      → OrderFree {K = S} (reduce_sorted strings)
  unfolding reduce_sorted
  reduce_sorted-OrderFree sorts key vs ws p = ap strings.join (sorts vs ws p)
