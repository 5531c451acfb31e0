-- ===== src/MapReduce/Apps/Crash.antt =====
-- mr-main/mrapps/crash.go and nocrash.go: the same plugin, with a process that ends at random, and without.
-- The random number, `Itoa`, `len` of a string, `sort.Strings`, `Join` and the string constants are
-- parameters; a delay has no effect but the time it takes.
use cs_350_boston_u.Base.{
  ℕ, ◌≡◌, ◌⊎◌, inl, inr, refl, Bool-cases, false, ◌&&◌, ltb, List, [], ◌∷◌, length, if◌then◌else◌,
  Outcome, returns, panics, ◌>>◌,
}
use cs_350_boston_u.MapReduce.Worker.{KeyValue}

pub record Strings (S : Type 0) : Type 0 where
  pub itoa : ℕ → S
  pub len : S → ℕ
  pub sort : List S → List S
  pub join : List S → S
  pub a : S
  pub b : S
  pub c : S
  pub d : S
  pub xyzzy : S

-- `maybeCrash` of crash.go
unfoldable pub maybe_crash : ℕ → Outcome (Unit {0})
maybe_crash rr = if ltb rr 330 then panics else returns tt

-- `maybeCrash` of nocrash.go
unfoldable pub never_crash : ℕ → Outcome (Unit {0})
never_crash rr = if false && ltb rr 500 then panics else returns tt

module _ {S : Type 0} (strings : Strings S) where
  -- The pairs of both `Map`s.
  abbrev pub four_pairs : S → List ℕ → List (KeyValue S S)
  four_pairs filename contents =
      record { key = strings.a; value = filename }
      ∷ record { key = strings.b; value = strings.itoa (strings.len filename) }
      ∷ record { key = strings.c; value = strings.itoa (length contents) }
      ∷ record { key = strings.d; value = strings.xyzzy }
      ∷ []

  -- `Map` and `Reduce` of crash.go
  unfoldable pub map_crashing : ℕ → S → List ℕ → Outcome (List (KeyValue S S))
  unfolding maybe_crash
  map_crashing rr filename contents = maybe_crash rr >> returns (four_pairs filename contents)

  unfoldable pub reduce_crashing : ℕ → S → List S → Outcome S
  unfolding maybe_crash
  reduce_crashing rr key values = maybe_crash rr >> returns (strings.join (strings.sort values))

  -- `Map` and `Reduce` of nocrash.go
  unfoldable pub map_steady : ℕ → S → List ℕ → Outcome (List (KeyValue S S))
  unfolding never_crash
  map_steady rr filename contents = never_crash rr >> returns (four_pairs filename contents)

  unfoldable pub reduce_steady : ℕ → S → List S → Outcome S
  unfolding never_crash
  reduce_steady rr key values = never_crash rr >> returns (strings.join (strings.sort values))

  -- A call of the crashing plugin ends the process, or returns what the steady one does, whatever random
  -- numbers they draw.
  pub map_crashing-map_steady :
      (rr rr' : ℕ) (filename : S) (contents : List ℕ)
      → (map_crashing rr filename contents ≡ panics)
        ⊎ (map_crashing rr filename contents ≡ map_steady rr' filename contents)
  unfolding map_crashing map_steady maybe_crash never_crash
  map_crashing-map_steady rr rr' filename contents = elim (Bool-cases (ltb rr 330)) [
    | inl crashes ↦ inl (rw crashes refl)
    | inr goes_on ↦ inr (rw goes_on refl)
  ]

  pub reduce_crashing-reduce_steady :
      (rr rr' : ℕ) (key : S) (values : List S)
      → (reduce_crashing rr key values ≡ panics)
        ⊎ (reduce_crashing rr key values ≡ reduce_steady rr' key values)
  unfolding reduce_crashing reduce_steady maybe_crash never_crash
  reduce_crashing-reduce_steady rr rr' key values = elim (Bool-cases (ltb rr 330)) [
    | inl crashes ↦ inl (rw crashes refl)
    | inr goes_on ↦ inr (rw goes_on refl)
  ]
