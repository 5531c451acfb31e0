-- ===== src/MapReduce/Apps/Counts.antt =====
-- mr-main/mrapps: jobs whose map function gives each word the value "1", and whose reduce function counts.
use mathlib.Core.List.{Perm, Permᴰ}
use mathlib.Core.Logic.{∥∥₁_elim}
use native.Mathlib.Nat.{ℕ_set}
use cs_350_boston_u.Base.{
  ℕ, zero, suc, ◌+◌, ◌<◌, ◌≡◌, refl, sym, ap, ◌∙◌, true, List, [], ◌∷◌, ◌++◌, map, length,
  replicate, if◌then◌else◌, arith, Returns, Returns-map,
}
use cs_350_boston_u.Base.Comparable.{Comparable, eqb_self}
use cs_350_boston_u.MapReduce.Worker.{KeyValue, Disk}
use cs_350_boston_u.MapReduce.Keys.{values_of, values_of-append, OrderFree, outputs_for, output_of}
use cs_350_boston_u.MapReduce.Sequential.{sequential}
use cs_350_boston_u.MapReduce.Sequential.Runs.{Ordering, Sorts}
use cs_350_boston_u.MapReduce.Job.{pairs_of, listed, Readable}
use cs_350_boston_u.MapReduce.Job.Output.{outputs_for-sequential}

-- How often an element is in a list.
abbrev pub occurrences : {S : Type 0} ⦃strings : Comparable S⦄ → S → List S → ℕ
occurrences w [] = 0
occurrences ⦃strings⦄ w (x ∷ xs) =
    if strings.eqb x w then suc (occurrences w xs) else occurrences w xs

module _ {A : Type 0} where
  length-Permᴰ : (xs ys : List A) → Permᴰ xs ys → length xs ≡ length ys
  length-Permᴰ _ _ Permᴰ.nil = refl
  length-Permᴰ _ _ (Permᴰ.cons {l₁} {l₂} e d) = ap suc (length-Permᴰ l₁ l₂ d)
  length-Permᴰ _ _ (Permᴰ.swap e e') = refl
  length-Permᴰ _ _ (Permᴰ.trans {l₁} {l₂} {l₃} d d') = length-Permᴰ l₁ l₂ d ∙ length-Permᴰ l₂ l₃ d'

  pub length-Perm : (xs ys : List A) → Perm xs ys → length xs ≡ length ys
  length-Perm xs ys p = ∥∥₁_elim p (ℕ_set _ _) (λ d. length-Permᴰ xs ys d)

module _ {S : Type 0} where
  -- The loop of a `Map` over the words.
  unfoldable pub word_pairs : S → List S → List (KeyValue S S)
  word_pairs one [] = []
  word_pairs one (w ∷ words) = record { key = w; value = one } ∷ word_pairs one words

  -- The words of the tasks.
  abbrev pub all_words : (ℕ → List S) → List ℕ → List S
  all_words words [] = []
  all_words words (t ∷ ts) = words t ++ all_words words ts

  -- What the lines of a word that occurs so often print.
  abbrev pub counted : (ℕ → S) → ℕ → List S
  counted itoa zero = []
  counted itoa (suc n) = itoa (suc n) ∷ []

replicate-add :
    {A : Type 0} (m n : ℕ) (a : A) → replicate m a ++ replicate n a ≡ replicate (m + n) a
replicate-add zero n a = ap (λ k. replicate k a) (omega arith)
replicate-add (suc m) n a =
    let e : suc m + n ≡ suc (m + n) = omega arith in rw e (ap (λ r. a ∷ r) (replicate-add m n a))

module _ {S : Type 0} ⦃strings : Comparable S⦄ where
  occurrences-Permᴰ : (w : S) (xs ys : List S) → Permᴰ xs ys → occurrences w xs ≡ occurrences w ys
  occurrences-Permᴰ w _ _ Permᴰ.nil = refl
  occurrences-Permᴰ w _ _ (Permᴰ.cons {a} {l₁} {l₂} e d) =
      rw (sym e, occurrences-Permᴰ w l₁ l₂ d) refl
  occurrences-Permᴰ w _ _ (Permᴰ.swap {a} {b} {l = l} e e') = rw (sym e, sym e') (ground arith)
  occurrences-Permᴰ w _ _ (Permᴰ.trans {l₁} {l₂} {l₃} d d') =
      occurrences-Permᴰ w l₁ l₂ d ∙ occurrences-Permᴰ w l₂ l₃ d'

  pub occurrences-Perm : (w : S) (xs ys : List S) → Perm xs ys → occurrences w xs ≡ occurrences w ys
  occurrences-Perm w xs ys p = ∥∥₁_elim p (ℕ_set _ _) (λ d. occurrences-Permᴰ w xs ys d)

  pub occurrences-replicate : (w : S) (n : ℕ) → occurrences w (replicate n w) ≡ n
  occurrences-replicate w zero = refl
  occurrences-replicate w (suc n) = rw (eqb_self w) (ap suc (occurrences-replicate w n))

  values_of-word_pairs :
      (one w : S) (words : List S)
      → values_of w (word_pairs one words) ≡ replicate (occurrences w words) one
  unfolding word_pairs
  values_of-word_pairs one w [] = refl
  values_of-word_pairs one w (x ∷ words) = ground (arith, values_of-word_pairs one w words)

  occurrences-append :
      (w : S) (xs ys : List S) → occurrences w (xs ++ ys) ≡ occurrences w xs + occurrences w ys
  occurrences-append w [] ys = omega arith
  occurrences-append w (x ∷ xs) ys = ground (arith, occurrences-append w xs ys)

module _ {S F : Type 0} ⦃strings : Comparable S⦄ (mapf : F → List ℕ → List (KeyValue S S)) (one : S)
    (input : ℕ → F) (content : ℕ → List ℕ) (words : ℕ → List S) where
  values_of-pairs_of :
      ((t : ℕ) → mapf (input t) (content t) ≡ word_pairs one (words t))
      → (w : S) (tasks : List ℕ)
      → values_of w (pairs_of mapf input content tasks)
        ≡ replicate (occurrences w (all_words words tasks)) one
  values_of-pairs_of maps w [] = refl
  values_of-pairs_of maps w (t ∷ ts) =
      values_of-append w (mapf (input t) (content t)) (pairs_of mapf input content ts)
      ∙ rw (maps t, values_of-word_pairs one w (words t), values_of-pairs_of maps w ts)
          (replicate-add (occurrences w (words t)) (occurrences w (all_words words ts)) one
            ∙ ap (λ n. replicate n one) (sym (occurrences-append w (words t) (all_words words ts))))

  -- The job prints for each word how often it occurs.
  pub outputs_for-counted :
      (reducef : S → List S → S) (itoa : ℕ → S)
      → ((t : ℕ) → mapf (input t) (content t) ≡ word_pairs one (words t))
      → ((w : S) (n : ℕ) → reducef w (replicate n one) ≡ itoa n)
      → OrderFree reducef
      → (less : Ordering S) (sort : List (KeyValue S S) → List (KeyValue S S)) → Sorts S S less sort
      → (m : ℕ) (tasks : List ℕ) (d : Disk S S F) (w : S) → Readable input content m d
      → ((t : ℕ) → listed t tasks ≡ true → t < m)
      → Returns
          (λ lines. outputs_for w lines ≡ counted itoa (occurrences w (all_words words tasks)))
          (sequential sort mapf reducef (map input tasks) d)
  outputs_for-counted reducef itoa maps counts free less sort sorts m tasks d w there below =
      Returns-map {A = List (S × S)}
        {P = λ lines.
          outputs_for w lines
          ≡ output_of reducef w (values_of w (pairs_of mapf input content tasks))}
        _
        (λ lines e.
          e
          ∙ ap (output_of reducef w) (values_of-pairs_of maps w tasks)
          ∙ output_of-counted (occurrences w (all_words words tasks)))
        (outputs_for-sequential mapf reducef input content less sort sorts free m tasks d w there
          below)
    where
      output_of-counted : (n : ℕ) → output_of reducef w (replicate n one) ≡ counted itoa n
      output_of-counted zero = refl
      output_of-counted (suc n) = ap (λ r. r ∷ []) (counts w (suc n))
