-- ===== src/MapReduce/Worker/Files.antt =====
-- mr/worker.go, `doMap`: the files that a map task writes, one for each reduce task.
use cs_350_boston_u.Base.{
  ℕ, zero, suc, ◌+◌, ◌≤◌, ◌<◌, ◌%◌, ◌==◌, ◌≡◌, refl, sym, ap, ◌∙◌, true, false, Option, none, some,
  List, [], ◌∷◌, if◌then◌else◌, arith, Bool-cases, inl, inr, ==_iff,
}
use cs_350_boston_u.Base.Int.{ℤ, pos}
use cs_350_boston_u.Base.Comparable.{Comparable, eqb_true, eqb_self}
use cs_350_boston_u.MapReduce.Worker.{KeyValue, Formats, Disk, ihash, bucket, create, write_buckets}
use cs_350_boston_u.MapReduce.Keys.{values_of}

-- `Sscanf` reads back the numbers that `Sprintf` prints, and the decoder the pairs that were encoded.
pub record Reads {K V F : Type 0} (formats : Formats K V F) : Type 0 where
  pub scan-file_name : (x y : ℕ) → formats.scan (formats.file_name x y) ≡ some (pos x, pos y)
  pub decode-encode : (kvs : List (KeyValue K V)) → formats.decode (formats.encode kvs) ≡ kvs

some-pos :
    (x y x' y' : ℕ)
    → ◌≡◌ {A = Option (ℤ × ℤ)} (some (pos x, pos y)) (some (pos x', pos y'))
    → (x ≡ x') × (y ≡ y')
some-pos x y x' y' h = (cc, cc)

module _ {K V F : Type 0} (formats : Formats K V F) (reads : Reads formats) where
  pub file_name-injective :
      (x y x' y' : ℕ) → formats.file_name x y ≡ formats.file_name x' y' → (x ≡ x') × (y ≡ y')
  file_name-injective x y x' y' same =
      some-pos x y x' y'
        (sym (reads.scan-file_name x y) ∙ ap formats.scan same ∙ reads.scan-file_name x' y')

module _ {K V F : Type 0} ⦃names : Comparable F⦄ (formats : Formats K V F) where
  pub write_buckets-other :
      (rounds i task n : ℕ) (kva : List (KeyValue K V)) (d : Disk K V F) (f : F)
      → ((j : ℕ) → i ≤ j → names.eqb (formats.file_name task j) f ≡ false)
      → (write_buckets formats rounds i task n kva d).files f ≡ d.files f
  unfolding write_buckets
  write_buckets-other zero i task n kva d f other = refl
  write_buckets-other (suc rounds) i task n kva d f other =
      write_buckets-other rounds (suc i) task n kva
        (create (formats.file_name task i) (formats.encode (bucket formats n i kva)) d) f
        (λ j le. other j (omega arith))
      ∙ rw (other i (omega arith)) refl

  pub write_buckets-outputs :
      (rounds i task n : ℕ) (kva : List (KeyValue K V)) (d : Disk K V F)
      → (write_buckets formats rounds i task n kva d).outputs ≡ d.outputs
  unfolding write_buckets
  write_buckets-outputs zero i task n kva d = refl
  write_buckets-outputs (suc rounds) i task n kva d =
      write_buckets-outputs rounds (suc i) task n kva
        (create (formats.file_name task i) (formats.encode (bucket formats n i kva)) d)

module _ {K V F : Type 0} ⦃names : Comparable F⦄ (formats : Formats K V F)
    (reads : Reads formats) where
  pub other_file :
      (x y x' y' : ℕ)
      → ((x ≡ x') → (y ≡ y') → ⊥)
      → names.eqb (formats.file_name x y) (formats.file_name x' y') ≡ false
  other_file x y x' y' apart =
      elim (Bool-cases (names.eqb (formats.file_name x y) (formats.file_name x' y'))) [
        | inl same ↦
            let (p, q) = file_name-injective formats reads x y x' y' (eqb_true _ _ same) in
            absurd (apart p q)
        | inr other ↦ other
      ]

  pub plain_file :
      (x y : ℕ) (f : F) → formats.scan f ≡ none → names.eqb (formats.file_name x y) f ≡ false
  plain_file x y f plain = elim (Bool-cases (names.eqb (formats.file_name x y) f)) [
    | inl same ↦ absurd (cc (ap formats.scan (eqb_true _ _ same), reads.scan-file_name x y, plain))
    | inr other ↦ other
  ]

  pub write_buckets-bucket :
      (rounds i task n : ℕ) (kva : List (KeyValue K V)) (d : Disk K V F) (j : ℕ)
      → i ≤ j
      → j < i + rounds
      → (write_buckets formats rounds i task n kva d).files (formats.file_name task j)
        ≡ some (formats.encode (bucket formats n j kva))
  unfolding write_buckets
  write_buckets-bucket zero i task n kva d j ge lt = absurd (omega arith)
  write_buckets-bucket (suc rounds) i task n kva d j ge lt = elim (Bool-cases (i == j)) [
    | inl here ↦
        let e : i ≡ j = (==_iff i j).0 here in
        write_buckets-other formats rounds (suc i) task n kva
          (create (formats.file_name task i) (formats.encode (bucket formats n i kva)) d)
          (formats.file_name task j) (λ k le. other_file task k task j (λ _ same. omega arith))
        ∙ rw (sym e, eqb_self (formats.file_name task i)) refl
    | inr off ↦
        write_buckets-bucket rounds (suc i) task n kva
          (create (formats.file_name task i) (formats.encode (bucket formats n i kva)) d) j
          (ground (arith, off)) (omega arith)
  ]

module _ {K V F : Type 0} ⦃keys : Comparable K⦄ (formats : Formats K V F) where
  -- A key's values are all in the bucket of its hash.
  pub values_of-bucket :
      (n i : ℕ) (key : K) (kva : List (KeyValue K V))
      → values_of key (bucket formats n i kva)
        ≡ (if ihash formats key % n == i then values_of key kva else [])
  unfolding bucket
  values_of-bucket n i key [] = ground arith
  values_of-bucket n i key (kv ∷ kva) = elim (Bool-cases (keys.eqb kv.key key)) [
    | inl same ↦ elim (Bool-cases (ihash formats key % n == i)) [
      | inl at ↦
          let at' : (ihash formats kv.key % n == i) ≡ true = rw (eqb_true kv.key key same) at in
          rw (same, at, at', same)
            (ap (λ r. kv.value ∷ r) (values_of-bucket n i key kva ∙ rw at refl))
      | inr off ↦
          let off' : (ihash formats kv.key % n == i) ≡ false = rw (eqb_true kv.key key same) off in
          rw (off, off') (values_of-bucket n i key kva ∙ rw off refl)
    ]
    | inr other ↦ elim (Bool-cases (ihash formats kv.key % n == i)) [
      | inl at ↦ rw (at, other) (values_of-bucket n i key kva)
      | inr off ↦ rw (off, other) (values_of-bucket n i key kva)
    ]
  ]
