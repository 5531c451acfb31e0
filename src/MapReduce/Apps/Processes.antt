-- ===== src/MapReduce/Apps/Processes.antt =====
-- mr-main/mrapps/jobcount.go, mtiming.go and rtiming.go: plugins that write a file for a call and count the
-- files, or the processes, that they see. The directory is the list of the names in it, in any order. The
-- names of the files, `Sscanf`, `HasPrefix`, what a signal to a process says, the numbers' and the times'
-- formats, and what other processes do to the directory before it is read and during the sleep, are
-- parameters.
mod Counted
use cs_350_boston_u.Base.{
  ℕ, suc, Bool, true, false, Option, none, some, List, [], ◌∷◌, map, take, if◌then◌else◌, Outcome,
  returns, panics, ◌>>=◌,
}
use cs_350_boston_u.Base.Comparable.{Comparable}
use cs_350_boston_u.MapReduce.Worker.{KeyValue}

module _ {N : Type 0} where
  -- How many of the names have a property.
  unfoldable pub count_names : (N → Bool) → List N → ℕ
  count_names test [] = 0
  count_names test (name ∷ names) =
      let rest = count_names test names in if test name then suc rest else rest

module _ {N : Type 0} ⦃files : Comparable N⦄ where
  -- `ioutil.WriteFile` and `os.Remove` on the names of a directory.
  unfoldable pub has_file : N → List N → Bool
  has_file name [] = false
  has_file name (other ∷ names) = if files.eqb other name then true else has_file name names

  unfoldable pub write_file : N → List N → List N
  unfolding has_file
  write_file name names = if has_file name names then names else name ∷ names

  unfoldable pub remove_file : N → List N → Outcome (List N)
  remove_file name [] = panics
  remove_file name (other ∷ names) =
      let rest = remove_file name names in
      if files.eqb other name then returns names else rest >>= (λ left. returns (other ∷ left))

module _ {N : Type 0} where
  -- `Readdirnames(1000000)`, which fails at the end of a directory with no more names.
  unfoldable pub read_names : List N → Outcome (List N)
  read_names [] = panics
  read_names (name ∷ names) = returns (take 1000000 (name ∷ names))

-- What other processes do to the directory between a call's own steps.
pub record Others (N : Type 0) : Type 0 where
  pub before_read : List N → List N
  pub during_sleep : List N → List N

-- No other process touches the directory.
abbrev pub undisturbed : {N : Type 0} → Others N
undisturbed = record { before_read = λ names. names; during_sleep = λ names. names }

-- What the plugins use of the system, for names `N` and strings `S`: the file of a worker in a phase, the
-- PID that `Sscanf` finds in a name when it finds one, whether a signal reaches a process, the file of a map
-- call, and `HasPrefix` of its prefix.
pub record System (S N : Type 0) : Type 0 where
  pub worker_file : S → ℕ → N
  pub scan : S → N → Option ℕ
  pub alive : ℕ → Bool
  pub job_file : ℕ → ℕ → N
  pub is_job : N → Bool

-- The calls to the system that fail.
pub record Faults : Type 0 where
  pub write_fails : Bool
  pub open_fails : Bool
  pub read_fails : Bool

abbrev pub no_faults : Faults
no_faults = record { write_fails = false; open_fails = false; read_fails = false }

-- What the plugins use of strings, with the names of the phases.
pub record Strings (S : Type 0) : Type 0 where
  pub itoa : ℕ → S
  pub times : ℕ → S
  pub parallel : ℕ → S
  pub sort : List S → List S
  pub join : List S → S
  pub map_phase : S
  pub reduce_phase : S
  pub a : S
  pub x : S
  pub one : S
  -- "a" to "j"
  pub letters : List S

module _ {S : Type 0} where
  -- `Reduce` of mtiming.go
  unfoldable pub reduce_sorted : Strings S → S → List S → S
  reduce_sorted strings key values = strings.join (strings.sort values)

  -- `Map` of rtiming.go
  abbrev pub map_letters : Strings S → List (KeyValue S S)
  map_letters strings = map (λ letter. record { key = letter; value = strings.one }) strings.letters

module _ {S N : Type 0} ⦃files : Comparable N⦄ (system : System S N) where
  -- The tests of the loop over the names.
  unfoldable pub runs : S → N → Bool
  runs phase name = elim (system.scan phase name) [ none ↦ false | some xpid ↦ system.alive xpid ]

  -- `nparallel`
  unfoldable pub nparallel : Faults → Others N → S → ℕ → List N → Outcome (ℕ × List N)
  unfolding write_file remove_file read_names count_names runs
  nparallel faults others phase pid names =
      let myfilename = system.worker_file phase pid in
      let found = others.before_read (write_file myfilename names) in
      if faults.write_fails
      then panics
      else if faults.open_fails
      then panics
      else if faults.read_fails
      then panics
      else read_names found >>= (λ seen.
        remove_file myfilename (others.during_sleep found)
        >>= (λ left. returns (count_names (runs phase) seen, left)))

  -- `Map` of mtiming.go; `ts` is the formatted time.
  unfoldable pub map_timing :
      Strings S → Faults → Others N → S → ℕ → List N → Outcome (List (KeyValue S S) × List N)
  unfolding nparallel
  map_timing strings faults others ts pid names =
      nparallel faults others strings.map_phase pid names >>= (λ (n, left). returns (
        record { key = strings.times pid; value = ts }
            ∷ record { key = strings.parallel pid; value = strings.itoa n }
            ∷ [],
        left,
      ))

  -- `Reduce` of rtiming.go
  unfoldable pub reduce_timing : Strings S → Faults → Others N → ℕ → List N → Outcome (S × List N)
  unfolding nparallel
  reduce_timing strings faults others pid names =
      nparallel faults others strings.reduce_phase pid names
      >>= (λ (n, left). returns (strings.itoa n, left))

  -- `Map` and `Reduce` of jobcount.go; the state is `count` and the directory.
  unfoldable pub map_job :
      Strings S → Bool → ℕ → ℕ × List N → Outcome (List (KeyValue S S) × (ℕ × List N))
  map_job strings write_fails me (count, names) =
      let written = write_file (system.job_file me count) names in
      if write_fails
      then panics
      else returns (record { key = strings.a; value = strings.x } ∷ [], (suc count, written))

  unfoldable pub reduce_job : Strings S → Bool → List N → Outcome S
  reduce_job strings read_fails names =
      if read_fails then panics else returns (strings.itoa (count_names system.is_job names))
