-- ===== src/MapReduce/Sequential.antt =====
-- mr-main/mrsequential.go: the same job in one process. The plugin's functions and `sort.Sort` are
-- parameters; the output file is kept as its lines.
pub mod Runs
use cs_350_boston_u.Base.{
  ℕ, zero, suc, Option, List, [], ◌∷◌, ◌++◌, length, if◌then◌else◌, Outcome, returns, or_panic,
  ◌>>=◌,
}
use cs_350_boston_u.Base.Comparable.{Comparable}
use cs_350_boston_u.MapReduce.Worker.{KeyValue, Disk}

module _ {K V F : Type 0} where
  -- The loop over the input files.
  unfoldable pub read_inputs :
      (F → List ℕ → List (KeyValue K V)) → List F → Disk K V F → Outcome (List (KeyValue K V))
  read_inputs mapf [] d = returns []
  read_inputs mapf (filename ∷ filenames) d = do
    content ← or_panic (d.files filename)
    rest ← read_inputs mapf filenames d
    returns (mapf filename content ++ rest)

module _ {K V : Type 0} ⦃keys : Comparable K⦄ where
  -- The loops over `j` and `k`: the values of the pairs in front that have the key, and the pairs after
  -- them.
  unfoldable pub take_run : K → List (KeyValue K V) → List V × List (KeyValue K V)
  take_run key [] = ([], [])
  take_run key (kv ∷ kvs) =
      let (values, rest) = take_run key kvs in
      if keys.eqb kv.key key then (kv.value ∷ values, rest) else ([], kv ∷ kvs)

  -- The loop over `i`, with the rounds left; there are as many pairs as rounds, or fewer.
  unfoldable pub reduce_runs : ℕ → (K → List V → V) → List (KeyValue K V) → List (K × V)
  unfolding take_run
  reduce_runs zero reducef kvs = []
  reduce_runs (suc rounds) reducef [] = []
  reduce_runs (suc rounds) reducef (kv ∷ kvs) =
      let (values, rest) = take_run kv.key kvs in
      (kv.key, reducef kv.key (kv.value ∷ values)) ∷ reduce_runs rounds reducef rest

module _ {K V F : Type 0} ⦃keys : Comparable K⦄ where
  -- `main`: the lines of `mr-out-0`.
  unfoldable pub sequential :
      (List (KeyValue K V) → List (KeyValue K V))
      → (F → List ℕ → List (KeyValue K V))
      → (K → List V → V)
      → List F
      → Disk K V F
      → Outcome (List (K × V))
  unfolding read_inputs reduce_runs
  sequential sort mapf reducef filenames d = do
    intermediate ← read_inputs mapf filenames d
    let sorted = sort intermediate
    returns (reduce_runs (length sorted) reducef sorted)
