-- ===== src/MapReduce/Apps/Indexer.antt =====
-- mr-main/mrapps/indexer.go: the inverted index. `FieldsFunc`, `sort.Strings`, and the line that `Sprintf`
-- and `Join` make, are parameters. The keys of the map stand in the order of their first words; Go ranges
-- over them in any order.
use cs_350_boston_u.Base.{
  ℕ, ◌≡◌, refl, sym, ap, ◌∙◌, Bool, true, false, Bool-cases, inl, inr, List, [], ◌∷◌, length,
  if◌then◌else◌, arith,
}
use cs_350_boston_u.Base.Comparable.{Comparable, eqb_true, eqb_comm}
use cs_350_boston_u.MapReduce.Worker.{KeyValue}
use cs_350_boston_u.MapReduce.Keys.{values_of}

if_self : (b : Bool) → (if b then true else false) ≡ b
if_self true = refl
if_self false = refl

module _ {S : Type 0} ⦃strings : Comparable S⦄ where
  abbrev pub member : S → List S → Bool
  member w [] = false
  member w (x ∷ xs) = if strings.eqb x w then true else member w xs

  -- `m[w] = true`
  unfoldable pub mark : S → List S → List S
  mark w [] = w ∷ []
  mark w (x ∷ m) = let rest = mark w m in if strings.eqb w x then x ∷ m else x ∷ rest

  -- The loop over the words.
  unfoldable pub mark_all : List S → List S → List S
  unfolding mark
  mark_all [] m = m
  mark_all (w ∷ words) m = mark_all words (mark w m)

module _ {S : Type 0} where
  -- The loop over the keys of the map.
  unfoldable pub document_pairs : S → List S → List (KeyValue S S)
  document_pairs document [] = []
  document_pairs document (w ∷ m) = record { key = w; value = document } ∷ document_pairs document m

  -- `Reduce`
  abbrev pub reduce_documents : (List S → List S) → (ℕ → List S → S) → S → List S → S
  reduce_documents sort format key values = format (length values) (sort values)

module _ {S : Type 0} ⦃strings : Comparable S⦄ where
  -- `Map`
  unfoldable pub map_document : (List ℕ → List S) → S → List ℕ → List (KeyValue S S)
  unfolding mark_all document_pairs
  map_document fields document value = document_pairs document (mark_all (fields value) [])

  -- The map holds no word twice.
  abbrev Distinct : List S → Type 0
  Distinct [] = Unit
  Distinct (w ∷ m) = (member w m ≡ false) × Distinct m

  member-mark :
      (w k : S) (m : List S) → member k (mark w m) ≡ (if strings.eqb w k then true else member k m)
  unfolding mark
  member-mark w k [] = refl
  member-mark w k (x ∷ m) = elim (Bool-cases (strings.eqb w x)) [
    | inl same ↦ elim (Bool-cases (strings.eqb w k)) [
      | inl at ↦
          let at' : strings.eqb x k ≡ true = rw (sym (eqb_true w x same)) at in
          rw (same, at, at') refl
      | inr off ↦ rw (same, off) refl
    ]
    | inr other ↦ rw other (ground (arith, member-mark w k m))
  ]

  mark-Distinct : (w : S) (m : List S) → Distinct m → Distinct (mark w m)
  unfolding mark
  mark-Distinct w [] distinct = (refl, tt)
  mark-Distinct w (x ∷ m) (absent, distinct) = elim (Bool-cases (strings.eqb w x)) [
    | inl same ↦ rw same (absent, distinct)
    | inr other ↦ rw other (member-mark w x m ∙ rw other absent, mark-Distinct w m distinct)
  ]

  mark_all-Distinct : (words m : List S) → Distinct m → Distinct (mark_all words m)
  unfolding mark_all
  mark_all-Distinct [] m distinct = distinct
  mark_all-Distinct (w ∷ words) m distinct =
      mark_all-Distinct words (mark w m) (mark-Distinct w m distinct)

  member-mark_all :
      (k : S) (words m : List S)
      → member k (mark_all words m) ≡ (if member k words then true else member k m)
  unfolding mark_all
  member-mark_all k [] m = refl
  member-mark_all k (w ∷ words) m =
      member-mark_all k words (mark w m) ∙ rw (member-mark w k m, eqb_comm w k) (ground arith)

  values_of-document_pairs :
      (document k : S) (m : List S)
      → Distinct m
      → values_of k (document_pairs document m) ≡ (if member k m then document ∷ [] else [])
  unfolding document_pairs
  values_of-document_pairs document k [] distinct = refl
  values_of-document_pairs document k (w ∷ m) (absent, distinct) =
      elim (Bool-cases (strings.eqb w k)) [
        | inl same ↦
            let none_left : member k m ≡ false = rw (sym (eqb_true w k same)) absent in
            rw same (
              ap (λ r. document ∷ r)
                (values_of-document_pairs document k m distinct ∙ rw none_left refl))
        | inr other ↦ rw other (values_of-document_pairs document k m distinct)
      ]

  -- The map function gives a word that the document has the document as its one value, and a word that it
  -- does not have none.
  pub values_of-map_document :
      (fields : List ℕ → List S) (document : S) (value : List ℕ) (word : S)
      → values_of word (map_document fields document value)
        ≡ (if member word (fields value) then document ∷ [] else [])
  unfolding map_document
  values_of-map_document fields document value word =
      values_of-document_pairs document word (mark_all (fields value) [])
        (mark_all-Distinct (fields value) [] tt)
      ∙ ap (λ b. if b then document ∷ [] else [])
          (member-mark_all word (fields value) [] ∙ if_self (member word (fields value)))
