-- ===== src/MapReduce/Job/Work.antt =====
-- mr/worker.go, `Worker`, with mr/coordinator.go: one worker does a whole job.
use native.Mathlib.Nat.{mod-lt}
use cs_350_boston_u.Base.{
  ℕ, zero, suc, ◌+◌, ◌<◌, ◌%◌, ltb, ◌≡◌, refl, sym, subst, ◌∙◌, Bool, true, false, List, [], ◌∷◌,
  map, length, Outcome, returns, ◌>>=◌, Returns, Returns-map, Returns->>=, arith,
}
use cs_350_boston_u.Base.Comparable.{Comparable}
use cs_350_boston_u.MapReduce.Coordinator.{Coordinator, make_coordinator, done}
use cs_350_boston_u.MapReduce.Worker.{KeyValue, Formats, Disk, ihash}
use cs_350_boston_u.MapReduce.Worker.Files.{Reads}
use cs_350_boston_u.MapReduce.Keys.{values_of, outputs_for, output_of, OrderFree}
use cs_350_boston_u.MapReduce.Sequential.{sequential}
use cs_350_boston_u.MapReduce.Sequential.Runs.{Ordering, Sorts}
use cs_350_boston_u.MapReduce.Job.{pairs_of, Readable, Plain}
use cs_350_boston_u.MapReduce.Job.Output.{all_lines, outputs_for-all_lines, outputs_for-sequential}
use cs_350_boston_u.MapReduce.Job.Rounds.{round, GoesOn}
use cs_350_boston_u.MapReduce.Job.Filing.{upto}
use cs_350_boston_u.MapReduce.Job.MapRounds.{MapPhase, round-MapPhase}
use cs_350_boston_u.MapReduce.Job.ReduceRounds.{
  ReducePhase, Stops, round-ReducePhase, round-Stops, Progress-all_completed,
}
use cs_350_boston_u.MapReduce.Job.Starts.{
  upto-ne-nil, listed-upto, map_tasks_from-Progress, reduce_tasks_from-Progress,
}

module _ {K V F : Type 0} ⦃keys : Comparable K⦄ ⦃names : Comparable F⦄ (formats : Formats K V F)
    (mapf : F → List ℕ → List (KeyValue K V)) (reducef : K → List V → V) where
  -- The rounds of the loop of `Worker`, each with the clock of the coordinator at its request: the
  -- coordinator and the disk then, and whether the worker still goes on.
  unfoldable pub work :
      List ℕ → Coordinator F → Disk K V F → Outcome (Coordinator F × Disk K V F × Bool)
  unfolding round
  work [] c d = returns (c, d, true)
  work (now ∷ nows) c d = do
    (c', d', more) ← round formats mapf reducef now c d
    elim more [ true ↦ work nows c' d' | false ↦ returns (c', d', false) ]

-- Every request comes more than ten seconds after the zero time.
abbrev pub Late : List ℕ → Type 0
Late [] = Unit
Late (now ∷ nows) = (10 < now) × Late nows

module _ {K V F : Type 0} ⦃keys : Comparable K⦄ ⦃names : Comparable F⦄ (formats : Formats K V F)
    (mapf : F → List ℕ → List (KeyValue K V)) (reducef : K → List V → V) where
  work_on :
      (P : Coordinator F → Disk K V F → Type 0) (Q : Coordinator F × Disk K V F × Bool → Type 0)
      (now : ℕ) (nows : List ℕ) (c : Coordinator F) (d : Disk K V F)
      → Returns (GoesOn P) (round formats mapf reducef now c d)
      → ((c' : Coordinator F) (d' : Disk K V F)
          → P c' d'
          → Returns Q (work formats mapf reducef nows c' d'))
      → Returns Q (work formats mapf reducef (now ∷ nows) c d)
  unfolding work
  work_on P Q now nows c d goes rest =
      Returns->>= (GoesOn P) Q (round formats mapf reducef now c d) _ goes
        (λ (c', d', more) (on, p). rw on (rest c' d' p))

  work-Stops :
      (n : ℕ) (input : ℕ → F) (content : ℕ → List ℕ) (ts : List ℕ) (now : ℕ) (nows : List ℕ)
      (c : Coordinator F) (d : Disk K V F)
      → Returns (Stops formats mapf reducef n input content ts) (round formats mapf reducef now c d)
      → Returns
          (Stops formats mapf reducef n input content ts)
          (work formats mapf reducef (now ∷ nows) c d)
  unfolding work
  work-Stops n input content ts now nows c d stops =
      Returns->>= (Stops formats mapf reducef n input content ts)
        (Stops formats mapf reducef n input content ts) (round formats mapf reducef now c d) _ stops
        (λ (c', d', more) (off, over, printed). rw off (refl, over, printed))

module _ {K V F : Type 0} ⦃keys : Comparable K⦄ ⦃names : Comparable F⦄ (formats : Formats K V F)
    (mapf : F → List ℕ → List (KeyValue K V)) (reducef : K → List V → V) (m n : ℕ) (input : ℕ → F)
    (content : ℕ → List ℕ) (reads : Reads formats) (some_file : 0 < m)
    (plain : Plain formats input m) where
  -- The worker stops when all is done.
  abbrev Finishes : Coordinator F × Disk K V F × Bool → Type 0
  Finishes = Stops formats mapf reducef n input content (upto m)

  work-ReducePhase :
      (left k : ℕ) (nows : List ℕ) (c : Coordinator F) (d : Disk K V F)
      → k + left ≡ n
      → Late nows
      → left < length nows
      → ReducePhase formats mapf reducef n input content (upto m) k c d
      → Returns Finishes (work formats mapf reducef nows c d)
  work-ReducePhase left k [] c d sum late enough phase = absurd (omega arith)
  work-ReducePhase zero k (now ∷ nows) c d sum late enough phase =
      let all : k ≡ n = omega arith in
      work-Stops formats mapf reducef n input content (upto m) now nows c d (
        round-Stops formats mapf reducef n input content (upto m) now c d
          (subst (λ i. ReducePhase formats mapf reducef n input content (upto m) i c d) all phase))
  work-ReducePhase (suc left) k (now ∷ nows) c d sum (late, later) enough phase =
      work_on formats mapf reducef
        (ReducePhase formats mapf reducef n input content (upto m) (suc k)) Finishes now nows c d
        (round-ReducePhase formats mapf reducef n input content (upto m) reads
          (upto-ne-nil m some_file) now k c d late (omega arith) phase)
        (λ c' d' next.
          work-ReducePhase left (suc k) nows c' d' (omega arith) later (omega arith) next)

  MapPhase-ReducePhase :
      (c : Coordinator F) (d : Disk K V F)
      → MapPhase formats mapf reducef m n input content m c d
      → ReducePhase formats mapf reducef n input content (upto m) 0 c d
  MapPhase-ReducePhase c d (maps, reduces, same, there, written) = (
    Progress-all_completed m (λ i. input i ∷ []) c.map_tasks maps,
    reduces,
    same,
    (λ t h. written t (listed-upto m t h)),
    (λ j lt. absurd (omega arith)),
  )

  work-MapPhase :
      (left k : ℕ) (nows : List ℕ) (c : Coordinator F) (d : Disk K V F)
      → k + left ≡ m
      → Late nows
      → left + n < length nows
      → MapPhase formats mapf reducef m n input content k c d
      → Returns Finishes (work formats mapf reducef nows c d)
  work-MapPhase left k [] c d sum late enough phase = absurd (omega arith)
  work-MapPhase zero k (now ∷ nows) c d sum late enough phase =
      let all : k ≡ m = omega arith in
      work-ReducePhase n 0 (now ∷ nows) c d (omega arith) late (omega arith) (
        MapPhase-ReducePhase c d
          (subst (λ i. MapPhase formats mapf reducef m n input content i c d) all phase))
  work-MapPhase (suc left) k (now ∷ nows) c d sum (late, later) enough phase =
      work_on formats mapf reducef (MapPhase formats mapf reducef m n input content (suc k))
        Finishes now nows c d
        (round-MapPhase formats mapf reducef m n input content reads now k c d late (omega arith)
          plain phase)
        (λ c' d' next. work-MapPhase left (suc k) nows c' d' (omega arith) later (omega arith) next)

  make_coordinator-MapPhase :
      (d : Disk K V F)
      → Readable input content m d
      → MapPhase formats mapf reducef m n input content 0
          (make_coordinator (map input (upto m)) n)
          d
  unfolding make_coordinator
  make_coordinator-MapPhase d there = (
    map_tasks_from-Progress input m,
    reduce_tasks_from-Progress n,
    refl,
    there,
    (λ t lt. absurd (omega arith)),
  )

  Stops-outputs :
      (less : Ordering K) (sort : List (KeyValue K V) → List (KeyValue K V))
      → Sorts K V less sort
      → OrderFree reducef
      → (d : Disk K V F) (key : K) (o : Coordinator F × Disk K V F × Bool) → 0 < n
      → Readable input content m d
      → Finishes o
      → Returns
          (λ lines. outputs_for key (all_lines n o.1) ≡ outputs_for key lines)
          (sequential sort mapf reducef (map input (upto m)) d)
  Stops-outputs less sort sorts free d key (c', d', more) pos_n there (stops, over, printed) =
      let in_range : ltb (ihash formats key % n) n ≡ true =
        ground (arith, mod-lt (ihash formats key) pos_n) in
      Returns-map {A = List (K × V)}
        {P = λ lines.
          outputs_for key lines
          ≡ output_of reducef key (values_of key (pairs_of mapf input content (upto m)))}
        _
        (λ lines e.
          outputs_for-all_lines formats mapf reducef n input content (λ _. upto m) d' key n printed
          ∙ rw in_range refl
          ∙ sym e)
        (outputs_for-sequential mapf reducef input content less sort sorts free m (upto m) d key
          there (listed-upto m))

  -- Take a plugin whose output for a key does not depend on the order of the values, a sort that sorts,
  -- formats that read back what they write, and at least one input file, all of them there and none with
  -- the name of an intermediate file. A new coordinator for these files and at least one reduce task, and
  -- one worker that asks it at times more than ten seconds after the zero time, are done after one round
  -- more than there are tasks at most: no call fails, the worker is told to stop, `Done` holds then, and
  -- in all the output files together each key has the output that the sequential program prints for it on
  -- the same input files.
  pub work-sequential :
      (less : Ordering K) (sort : List (KeyValue K V) → List (KeyValue K V))
      → Sorts K V less sort
      → OrderFree reducef
      → (nows : List ℕ) (d : Disk K V F) (key : K) → 0 < n
      → Readable input content m d
      → Late nows
      → m + n < length nows
      → Returns
          (λ o.
            (o.2 ≡ false)
            × (done o.0 ≡ true)
            × Returns
                (λ lines. outputs_for key (all_lines n o.1) ≡ outputs_for key lines)
                (sequential sort mapf reducef (map input (upto m)) d))
          (work formats mapf reducef nows (make_coordinator (map input (upto m)) n) d)
  work-sequential less sort sorts free nows d key pos_n there late enough =
      Returns-map {A = Coordinator F × Disk K V F × Bool} {P = Finishes} _
        (λ o h. (h.0, h.1, Stops-outputs less sort sorts free d key o pos_n there h))
        (work-MapPhase m 0 nows _ d (omega arith) late enough (make_coordinator-MapPhase d there))
