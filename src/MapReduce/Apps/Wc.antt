-- ===== src/MapReduce/Apps/Wc.antt =====
-- mr-main/mrapps/wc.go: the word count. `FieldsFunc` at characters that are no letters, and `Itoa`, are
-- the standard library's, and parameters.
use cs_350_boston_u.Base.{ℕ, ◌<◌, ◌≡◌, refl, ap, true, List, map, length, length-replicate, Returns}
use cs_350_boston_u.Base.Comparable.{Comparable}
use cs_350_boston_u.MapReduce.Worker.{KeyValue, Disk}
use cs_350_boston_u.MapReduce.Keys.{OrderFree, outputs_for}
use cs_350_boston_u.MapReduce.Sequential.{sequential}
use cs_350_boston_u.MapReduce.Sequential.Runs.{Ordering, Sorts}
use cs_350_boston_u.MapReduce.Job.{listed, Readable}
use cs_350_boston_u.MapReduce.Apps.Counts.{
  occurrences, length-Perm, word_pairs, all_words, counted, outputs_for-counted,
}

module _ {S F : Type 0} where
  -- `Map`
  abbrev pub map_words : (List ℕ → List S) → S → F → List ℕ → List (KeyValue S S)
  map_words fields one filename contents = word_pairs one (fields contents)

module _ {S : Type 0} where
  -- `Reduce`
  abbrev pub reduce_length : (ℕ → S) → S → List S → S
  reduce_length itoa key values = itoa (length values)

  pub reduce_length-OrderFree : (itoa : ℕ → S) → OrderFree {K = S} (reduce_length itoa)
  reduce_length-OrderFree itoa key vs ws p = ap itoa (length-Perm vs ws p)

-- With a sort that sorts, and input files that are there, the sequential word count prints for each word
-- how often it occurs in the files, and nothing for a word that does not occur.
pub word_count :
    {S F : Type 0} ⦃strings : Comparable S⦄ (fields : List ℕ → List S) (one : S) (itoa : ℕ → S)
    (input : ℕ → F) (content : ℕ → List ℕ) (less : Ordering S)
    (sort : List (KeyValue S S) → List (KeyValue S S))
    → Sorts S S less sort
    → (m : ℕ) (tasks : List ℕ) (d : Disk S S F) (w : S) → Readable input content m d
    → ((t : ℕ) → listed t tasks ≡ true → t < m)
    → Returns
        (λ lines.
          outputs_for w lines
          ≡ counted itoa (occurrences w (all_words (λ t. fields (content t)) tasks)))
        (sequential sort (map_words fields one) (reduce_length itoa) (map input tasks) d)
word_count fields one itoa input content less sort sorts m tasks d w there below =
    outputs_for-counted (map_words fields one) one input content (λ t. fields (content t))
      (reduce_length itoa) itoa (λ t. refl) (λ w n. ap itoa (length-replicate n one))
      (reduce_length-OrderFree itoa) less sort sorts m tasks d w there below
