-- ===== src/MapReduce/Tests/Sorting.antt =====
-- A sort of pairs by keys that are numbers.
use mathlib.Core.List.{Perm}
use mathlib.Core.List.Perm
use cs_350_boston_u.Base.{
  ℕ, ltb, ==_iff, ◌==◌, ◌≡◌, Bool-cases, inl, inr, false, List, [], ◌∷◌, if◌then◌else◌, arith,
}
use cs_350_boston_u.Base.Comparable.{Comparable}
use cs_350_boston_u.MapReduce.Worker.{KeyValue}
use cs_350_boston_u.MapReduce.Sequential.Runs.{Ordering, After, Ascending, Sorts}

instance abbrev pub numbers : Comparable ℕ
numbers = record { eqb = λ a b. a == b; eqb_iff = ==_iff }

pub ltb-total : (a b : ℕ) → ltb a b ≡ false → ltb b a ≡ false → a ≡ b
ltb-total a b h h' = ground (arith, h, h')

abbrev pub by_number : Ordering ℕ
by_number = record { less = ltb; total = ltb-total }

abbrev insert : KeyValue ℕ ℕ → List (KeyValue ℕ ℕ) → List (KeyValue ℕ ℕ)
insert x [] = x ∷ []
insert x (y ∷ ys) = let rest = insert x ys in if ltb y.key x.key then y ∷ rest else x ∷ y ∷ ys

abbrev pub sort_pairs : List (KeyValue ℕ ℕ) → List (KeyValue ℕ ℕ)
sort_pairs [] = []
sort_pairs (x ∷ xs) = insert x (sort_pairs xs)

insert-Perm : (x : KeyValue ℕ ℕ) (ys : List (KeyValue ℕ ℕ)) → Perm (insert x ys) (x ∷ ys)
insert-Perm x [] = Perm.refl (x ∷ [])
insert-Perm x (y ∷ ys) = elim (Bool-cases (ltb y.key x.key)) [
  | inl lt ↦ rw lt (Perm.trans (Perm.cons y (insert-Perm x ys)) (Perm.swap x y ys))
  | inr ge ↦ rw ge (Perm.refl _)
]

sort_pairs-Perm : (xs : List (KeyValue ℕ ℕ)) → Perm (sort_pairs xs) xs
sort_pairs-Perm [] = Perm.refl []
sort_pairs-Perm (x ∷ xs) =
    Perm.trans (insert-Perm x (sort_pairs xs)) (Perm.cons x (sort_pairs-Perm xs))

After-insert :
    (k : ℕ) (x : KeyValue ℕ ℕ) (ys : List (KeyValue ℕ ℕ))
    → ltb x.key k ≡ false
    → After by_number k ys
    → After by_number k (insert x ys)
After-insert k x [] h after = (h, tt)
After-insert k x (y ∷ ys) h (h', after) = elim (Bool-cases (ltb y.key x.key)) [
  | inl lt ↦ rw lt (h', After-insert k x ys h after)
  | inr ge ↦ rw ge (h, (h', after))
]

After-le :
    (j k : ℕ) (ys : List (KeyValue ℕ ℕ))
    → ltb k j ≡ false
    → After by_number k ys
    → After by_number j ys
After-le j k [] h after = tt
After-le j k (y ∷ ys) h (h', after) = (ground (arith, h, h'), After-le j k ys h after)

insert-Ascending :
    (x : KeyValue ℕ ℕ) (ys : List (KeyValue ℕ ℕ))
    → Ascending by_number ys
    → Ascending by_number (insert x ys)
insert-Ascending x [] sorted = (tt, tt)
insert-Ascending x (y ∷ ys) (later, sorted) = elim (Bool-cases (ltb y.key x.key)) [
  | inl lt ↦
      rw lt (After-insert y.key x ys (ground (arith, lt)) later, insert-Ascending x ys sorted)
  | inr ge ↦ rw ge ((ge, After-le x.key y.key ys ge later), (later, sorted))
]

sort_pairs-Ascending : (xs : List (KeyValue ℕ ℕ)) → Ascending by_number (sort_pairs xs)
sort_pairs-Ascending [] = tt
sort_pairs-Ascending (x ∷ xs) = insert-Ascending x (sort_pairs xs) (sort_pairs-Ascending xs)

pub sort_pairs-Sorts : Sorts ℕ ℕ by_number sort_pairs
sort_pairs-Sorts = record { ascending = sort_pairs-Ascending; permutes = sort_pairs-Perm }
