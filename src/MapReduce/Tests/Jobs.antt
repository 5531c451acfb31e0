-- ===== src/MapReduce/Tests/Jobs.antt =====
-- Witnesses for the plugins, on strings that are numbers.
use cs_350_boston_u.Base.{
  ℕ, zero, suc, ◌<◌, ◌==◌, ◌≡◌, true, none, some, List, [], ◌∷◌, map, if◌then◌else◌, Returns, arith,
}
use cs_350_boston_u.Base.Int.{pos}
use cs_350_boston_u.MapReduce.Worker.{Disk}
use cs_350_boston_u.MapReduce.Keys.{outputs_for, values_of}
use cs_350_boston_u.MapReduce.Sequential.{sequential}
use cs_350_boston_u.MapReduce.Job.{listed}
use cs_350_boston_u.MapReduce.Apps.Counts.{occurrences, all_words, counted}
use cs_350_boston_u.MapReduce.Apps.Wc.{map_words, reduce_length, word_count}
use cs_350_boston_u.MapReduce.Apps.Credit.{Strings, map_scores, reduce_scores}
use cs_350_boston_u.MapReduce.Apps.Credit.Rows.{CountingRows, credit_count}
use cs_350_boston_u.MapReduce.Apps.Indexer.{member, map_document, values_of-map_document}
use cs_350_boston_u.MapReduce.Tests.Sorting.{numbers, by_number, sort_pairs, sort_pairs-Sorts}

abbrev content : ℕ → List ℕ
content zero = 1 ∷ 2 ∷ 1 ∷ 4 ∷ []
content (suc t) = 3 ∷ 1 ∷ []

abbrev inputs : Disk ℕ ℕ ℕ
inputs = record {
  files = λ f. if f == 0 then some (content 0) else if f == 1 then some (content 1) else none;
  outputs = λ i. none;
}

inputs-Readable : (t : ℕ) → t < 2 → inputs.files t ≡ some (content t)
inputs-Readable t lt = ground (arith, lt)

below_two : (t : ℕ) → listed t (0 ∷ 1 ∷ []) ≡ true → t < 2
below_two t h = ground (arith, h)

word_count_example :
    Returns
      (λ lines.
        outputs_for 1 lines
        ≡ counted (λ n. n) (occurrences 1 (all_words (λ t. content t) (0 ∷ 1 ∷ []))))
      (sequential sort_pairs
        (map_words (λ bytes. bytes) 1)
        (reduce_length (λ n. n))
        (map (λ t. t) (0 ∷ 1 ∷ []))
        inputs)
word_count_example =
    word_count (λ bytes. bytes) 1 (λ n. n) (λ t. t) content by_number sort_pairs sort_pairs-Sorts 2
      (0 ∷ 1 ∷ []) inputs 1 inputs-Readable below_two

-- Row 1 has a good score, row 2 a bad one, row 3 is of another year, and row 4 is no row.
abbrev split_commas : ℕ → List ℕ
split_commas line =
    if line == 1
    then 10 ∷ 7 ∷ 2023 ∷ 500 ∷ []
    else if line == 2
    then 11 ∷ 7 ∷ 2023 ∷ 300 ∷ []
    else if line == 3
    then 12 ∷ 7 ∷ 2022 ∷ 500 ∷ []
    else []

abbrev strings : Strings ℕ
strings = record {
  lines = λ bytes. bytes;
  split_commas = split_commas;
  atoi = λ s. some (pos s);
  itoa = λ n. n;
  one = 1;
  year_2023 = 2023;
  header = 99;
}

credit_count_example :
    (n : ℕ) × CountingRows strings 7 (all_words (λ t. content t) (0 ∷ 1 ∷ [])) n
    × Returns
        (λ lines. outputs_for 7 lines ≡ counted (λ n. n) n)
        (sequential sort_pairs
          (map_scores strings)
          (reduce_scores strings)
          (map (λ t. t) (0 ∷ 1 ∷ []))
          inputs)
credit_count_example =
    credit_count strings (λ t. t) content by_number sort_pairs sort_pairs-Sorts 2 (0 ∷ 1 ∷ [])
      inputs 7 inputs-Readable below_two

values_of-map_document_example :
    values_of 1 (map_document (λ bytes. bytes) 50 (content 0))
    ≡ (if member 1 (content 0) then 50 ∷ [] else [])
values_of-map_document_example = values_of-map_document (λ bytes. bytes) 50 (content 0) 1
