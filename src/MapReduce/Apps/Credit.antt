-- ===== src/MapReduce/Apps/Credit.antt =====
-- mr-main/mrapps/credit.go: for each agency, the rows of 2023 with a score of more than 400. The two
-- `strings.Split`s, `Atoi`, `Itoa` and the string constants are parameters.
pub mod Rows
use cs_350_boston_u.Base.{ℕ, suc, ◌&&◌, Option, none, some, List, [], ◌∷◌, if◌then◌else◌}
use cs_350_boston_u.Base.Int.{ℤ, pos, ltb_ℤ}
use cs_350_boston_u.Base.Comparable.{Comparable}
use cs_350_boston_u.MapReduce.Worker.{KeyValue}

-- What the plugin uses of strings and strconv, and its constants "1", "2023" and "Credit Score".
pub record Strings (S : Type 0) : Type 0 where
  pub lines : List ℕ → List S
  pub split_commas : S → List S
  pub atoi : S → Option ℤ
  pub itoa : ℕ → S
  pub one : S
  pub year_2023 : S
  pub header : S

module _ {S : Type 0} ⦃keys : Comparable S⦄ where
  -- The body of the loop of `Map`, on the fields of a row: the agency whose pair the row adds.
  unfoldable pub scored_fields : Strings S → List S → Option S
  scored_fields strings (user_id ∷ (agency ∷ (year ∷ (score_str ∷ [])))) =
      if keys.eqb score_str strings.header then none else elim (strings.atoi score_str) [
        | none ↦ none
        | some score ↦
            if keys.eqb year strings.year_2023 && ltb_ℤ (pos 400) score then some agency else none
      ]
  scored_fields strings _ = none

  abbrev pub scored_agency : Strings S → S → Option S
  scored_agency strings line = scored_fields strings (strings.split_commas line)

  -- The loop of `Map` over the lines.
  unfoldable pub line_pairs : Strings S → List S → List (KeyValue S S)
  line_pairs strings [] = []
  line_pairs strings (line ∷ lines) = elim (scored_agency strings line) [
    | none ↦ line_pairs strings lines
    | some agency ↦ record { key = agency; value = strings.one } ∷ line_pairs strings lines
  ]

  -- The loop of `Reduce`
  unfoldable pub count_ones : Strings S → ℕ → List S → ℕ
  count_ones strings count [] = count
  count_ones strings count (value ∷ values) =
      count_ones strings (if keys.eqb value strings.one then suc count else count) values

  abbrev pub reduce_scores : Strings S → S → List S → S
  reduce_scores strings key values = strings.itoa (count_ones strings 0 values)

module _ {S F : Type 0} ⦃keys : Comparable S⦄ where
  abbrev pub map_scores : Strings S → F → List ℕ → List (KeyValue S S)
  map_scores strings filename contents = line_pairs strings (strings.lines contents)
