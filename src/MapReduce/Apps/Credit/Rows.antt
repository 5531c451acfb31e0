-- ===== src/MapReduce/Apps/Credit/Rows.antt =====
-- mr-main/mrapps/credit.go: the rows that count for an agency, and what the job prints.
use cs_350_boston_u.Base.{
  ℕ, suc, ◌+◌, ◌<◌, ◌≡◌, ◌≢◌, refl, sym, ap, ◌∙◌, Bool-cases, true, false, ◌&&◌, none, some, List,
  [], ◌∷◌, ◌++◌, map, Returns, arith, replicate, Option-cases, inl, inr,
}
use cs_350_boston_u.Base.Int.{ℤ, pos, ltb_ℤ, ◌<ℤ◌}
use cs_350_boston_u.Base.Comparable.{Comparable, eqb_self, eqb_true, eqb_false}
use cs_350_boston_u.MapReduce.Worker.{KeyValue, Disk}
use cs_350_boston_u.MapReduce.Keys.{OrderFree, outputs_for}
use cs_350_boston_u.MapReduce.Sequential.{sequential}
use cs_350_boston_u.MapReduce.Sequential.Runs.{Ordering, Sorts}
use cs_350_boston_u.MapReduce.Job.{listed, Readable}
use cs_350_boston_u.MapReduce.Apps.Counts.{
  occurrences, occurrences-Perm, occurrences-replicate, word_pairs, all_words, counted,
  outputs_for-counted,
}
use cs_350_boston_u.MapReduce.Apps.Credit.{
  Strings, scored_fields, scored_agency, line_pairs, count_ones, map_scores, reduce_scores,
}

module _ {S : Type 0} (strings : Strings S) where
  -- The fields of a row of an agency that counts: four of them, with the year 2023 and a score that is a
  -- number and more than 400. The row is not the header.
  pub record Scored (agency : S) (fields : List S) : Type 0 where
    pub user_id : S
    pub year : S
    pub score_str : S
    pub score : ℤ
    pub four : fields ≡ user_id ∷ agency ∷ year ∷ score_str ∷ []
    pub no_header : score_str ≢ strings.header
    pub reads : strings.atoi score_str ≡ some score
    pub in_year : year ≡ strings.year_2023
    pub high : pos 400 <ℤ score

  -- So many of the rows count for an agency.
  pub data CountingRows (agency : S) : List S → ℕ → Type 0 where
    no_row : CountingRows agency [] 0
    counts :
        {line : S} {lines : List S} {n : ℕ}
        → Scored agency (strings.split_commas line)
        → CountingRows agency lines n
        → CountingRows agency (line ∷ lines) (suc n)
    skips :
        {line : S} {lines : List S} {n : ℕ}
        → ¬ Scored agency (strings.split_commas line)
        → CountingRows agency lines n
        → CountingRows agency (line ∷ lines) n

module _ {S : Type 0} ⦃keys : Comparable S⦄ (strings : Strings S) where
  scored_fields-Scored :
      (fields : List S) (agency : S)
      → scored_fields strings fields ≡ some agency
      → Scored strings agency fields
  unfolding scored_fields
  scored_fields-Scored [] agency h = cc
  scored_fields-Scored (a ∷ []) agency h = cc
  scored_fields-Scored (a ∷ (b ∷ [])) agency h = cc
  scored_fields-Scored (a ∷ (b ∷ (c ∷ []))) agency h = cc
  scored_fields-Scored (a ∷ (b ∷ (c ∷ (d ∷ (e ∷ rest))))) agency h = cc
  scored_fields-Scored (a ∷ (b ∷ (c ∷ (d ∷ [])))) agency h =
      elim (Bool-cases (keys.eqb d strings.header)) [
        | inl it ↦ cc (h, it)
        | inr no_header ↦ elim (Option-cases (strings.atoi d)) [
          | inl unread ↦ cc (h, no_header, unread)
          | inr (score, reads) ↦
              elim (Bool-cases (keys.eqb c strings.year_2023 && ltb_ℤ (pos 400) score)) [
                | inl good ↦
                    let same : some b ≡ some agency = cc (h, no_header, reads, good) in
                    record {
                      user_id = a;
                      year = c;
                      score_str = d;
                      score = score;
                      four = cc same;
                      no_header = λ e. cc ((keys.eqb_iff d strings.header).1 e, no_header);
                      reads = reads;
                      in_year = eqb_true c strings.year_2023 (ground (arith, good));
                      high = ground (arith, good);
                    }
                | inr bad ↦ cc (h, no_header, reads, bad)
              ]
        ]
      ]

  Scored-scored_fields :
      (fields : List S) (agency : S)
      → Scored strings agency fields
      → scored_fields strings fields ≡ some agency
  unfolding scored_fields
  Scored-scored_fields fields agency row =
      rw
        (
          row.four,
          eqb_false row.score_str strings.header row.no_header,
          row.reads,
          row.in_year,
          eqb_self strings.year_2023,
        )
        (ground (arith, row.high))

  -- The agencies of the rows of 2023 with a score of more than 400, one for each such row.
  abbrev agencies : List S → List S
  agencies [] = []
  agencies (line ∷ lines) = elim (scored_agency strings line) [
    | none ↦ agencies lines
    | some agency ↦ agency ∷ agencies lines
  ]

  line_pairs-agencies :
      (lines : List S) → line_pairs strings lines ≡ word_pairs strings.one (agencies lines)
  unfolding line_pairs word_pairs
  line_pairs-agencies [] = refl
  line_pairs-agencies (line ∷ lines) = elim (Option-cases (scored_agency strings line)) [
    | inl skipped ↦ rw (skipped, line_pairs, agencies) (line_pairs-agencies lines)
    | inr (agency, scored) ↦
        rw (scored, line_pairs, agencies)
          (ap (λ r. record { key = agency; value = strings.one } ∷ r) (line_pairs-agencies lines))
  ]

  count_ones-occurrences :
      (count : ℕ) (values : List S)
      → count_ones strings count values ≡ count + occurrences strings.one values
  unfolding count_ones
  count_ones-occurrences count [] = omega arith
  count_ones-occurrences count (value ∷ values) = elim (Bool-cases (keys.eqb value strings.one)) [
    | inl one ↦ rw one (omega (arith, count_ones-occurrences (suc count) values))
    | inr other ↦ rw other (count_ones-occurrences count values)
  ]

  reduce_scores-OrderFree : OrderFree {K = S} (reduce_scores strings)
  reduce_scores-OrderFree key vs ws p = ap strings.itoa (
      count_ones-occurrences 0 vs
      ∙ ap (λ n. 0 + n) (occurrences-Perm strings.one vs ws p)
      ∙ sym (count_ones-occurrences 0 ws))

  reduce_scores-replicate :
      (key : S) (n : ℕ) → reduce_scores strings key (replicate n strings.one) ≡ strings.itoa n
  reduce_scores-replicate key n = ap strings.itoa (
      count_ones-occurrences 0 (replicate n strings.one)
      ∙ omega (arith, occurrences-replicate strings.one n))

  occurrences-CountingRows :
      (agency : S) (lines : List S)
      → CountingRows strings agency lines (occurrences agency (agencies lines))
  occurrences-CountingRows agency [] = no_row
  occurrences-CountingRows agency (line ∷ lines) =
      let rest = occurrences-CountingRows agency lines in
      let fields = strings.split_commas line in
      elim (Option-cases (scored_fields strings fields)) [
        | inl skipped ↦
            rw (agencies, skipped)
              (skips (λ row. cc (Scored-scored_fields fields agency row, skipped)) rest)
        | inr (other, scored) ↦ elim (Bool-cases (keys.eqb other agency)) [
          | inl it ↦
              rw (agencies, scored, occurrences, it)
                (counts
                  (scored_fields-Scored fields agency (scored ∙ ap some (eqb_true other agency it)))
                  rest)
          | inr differs ↦
              rw (agencies, scored, occurrences, differs)
                (skips (λ row. no_other other fields agency row scored differs) rest)
        ]
      ]
    where
      no_other :
          (other : S) (fields : List S) (agency : S)
          → Scored strings agency fields
          → scored_fields strings fields ≡ some other
          → ¬ (keys.eqb other agency ≡ false)
      no_other other fields agency row scored differs =
          let same : some other ≡ some agency =
            sym scored ∙ Scored-scored_fields fields agency row in
          let e : other ≡ agency = cc same in cc ((keys.eqb_iff other agency).1 e, differs)

  agencies-append : (xs ys : List S) → agencies (xs ++ ys) ≡ agencies xs ++ agencies ys
  agencies-append [] ys = refl
  agencies-append (x ∷ xs) ys = elim (Option-cases (scored_agency strings x)) [
    | inl skipped ↦ rw (agencies, skipped) (agencies-append xs ys)
    | inr (agency, scored) ↦ rw (agencies, scored) (ap (λ r. agency ∷ r) (agencies-append xs ys))
  ]

  all_words-agencies :
      (rows : ℕ → List S) (tasks : List ℕ)
      → all_words (λ t. agencies (rows t)) tasks ≡ agencies (all_words rows tasks)
  all_words-agencies rows [] = refl
  all_words-agencies rows (t ∷ ts) =
      ap (λ r. agencies (rows t) ++ r) (all_words-agencies rows ts)
      ∙ sym (agencies-append (rows t) (all_words rows ts))

  -- With a sort that sorts, and input files that are there, the sequential program prints for each
  -- agency how many rows of the files are its: rows that have four fields and are not the header, with
  -- the year 2023 and a score that is a number and more than 400; and nothing for an agency that has
  -- none.
  pub credit_count :
      {F : Type 0} (input : ℕ → F) (content : ℕ → List ℕ) (less : Ordering S)
      (sort : List (KeyValue S S) → List (KeyValue S S))
      → Sorts S S less sort
      → (m : ℕ) (tasks : List ℕ) (d : Disk S S F) (agency : S) → Readable input content m d
      → ((t : ℕ) → listed t tasks ≡ true → t < m)
      → (n : ℕ) × CountingRows strings agency (all_words (λ t. strings.lines (content t)) tasks) n
        × Returns
            (λ lines. outputs_for agency lines ≡ counted strings.itoa n)
            (sequential sort (map_scores strings) (reduce_scores strings) (map input tasks) d)
  credit_count input content less sort sorts m tasks d agency there below =
      let rows = all_words (λ t. strings.lines (content t)) tasks in
      (
        occurrences agency (agencies rows),
        occurrences-CountingRows agency rows,
        rw (sym (all_words-agencies (λ t. strings.lines (content t)) tasks)) (
            outputs_for-counted (map_scores strings) strings.one input content
              (λ t. agencies (strings.lines (content t))) (reduce_scores strings) strings.itoa
              (λ t. line_pairs-agencies (strings.lines (content t))) reduce_scores-replicate
              reduce_scores-OrderFree less sort sorts m tasks d agency there below),
      )
