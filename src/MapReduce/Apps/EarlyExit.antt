-- ===== src/MapReduce/Apps/EarlyExit.antt =====
-- mr-main/mrapps/early_exit.go: a pair for each file. A file's name is its key; the sleep of `Reduce` has
-- no effect but the time it takes.
use cs_350_boston_u.Base.{
  ℕ, ◌<◌, ◌≡◌, refl, ap, true, List, [], ◌∷◌, map, length, length-replicate, Returns,
}
use cs_350_boston_u.Base.Comparable.{Comparable}
use cs_350_boston_u.MapReduce.Worker.{KeyValue, Disk}
use cs_350_boston_u.MapReduce.Keys.{outputs_for}
use cs_350_boston_u.MapReduce.Sequential.{sequential}
use cs_350_boston_u.MapReduce.Sequential.Runs.{Ordering, Sorts}
use cs_350_boston_u.MapReduce.Job.{listed, Readable}
use cs_350_boston_u.MapReduce.Apps.Counts.{
  occurrences, length-Perm, word_pairs, all_words, counted, outputs_for-counted,
}

module _ {S : Type 0} where
  -- `Map`
  abbrev pub map_name : S → S → List ℕ → List (KeyValue S S)
  map_name one filename contents = record { key = filename; value = one } ∷ []

  -- `Reduce`
  abbrev pub reduce_slowly : (ℕ → S) → S → List S → S
  reduce_slowly itoa key values = itoa (length values)

  map_name-word_pairs :
      (one filename : S) (contents : List ℕ)
      → map_name one filename contents ≡ word_pairs one (filename ∷ [])
  unfolding word_pairs
  map_name-word_pairs one filename contents = refl

-- With a sort that sorts, and input files that are there, the sequential program prints for each name how
-- often the file of that name is among the inputs.
pub file_count :
    {S : Type 0} ⦃strings : Comparable S⦄ (one : S) (itoa : ℕ → S) (input : ℕ → S)
    (content : ℕ → List ℕ) (less : Ordering S) (sort : List (KeyValue S S) → List (KeyValue S S))
    → Sorts S S less sort
    → (m : ℕ) (tasks : List ℕ) (d : Disk S S S) (name : S) → Readable input content m d
    → ((t : ℕ) → listed t tasks ≡ true → t < m)
    → Returns
        (λ lines.
          outputs_for name lines
          ≡ counted itoa (occurrences name (all_words (λ t. input t ∷ []) tasks)))
        (sequential sort (map_name one) (reduce_slowly itoa) (map input tasks) d)
file_count one itoa input content less sort sorts m tasks d name there below =
    outputs_for-counted (map_name one) one input content (λ t. input t ∷ []) (reduce_slowly itoa)
      itoa (λ t. map_name-word_pairs one (input t) (content t))
      (λ w n. ap itoa (length-replicate n one)) (λ key vs ws p. ap itoa (length-Perm vs ws p)) less
      sort sorts m tasks d name there below
