-- ===== src/Raft/Append/Conflict.antt =====
-- `findConflictIndex`, and the replies of `AppendEntries` that refuse the entries.
use cs_350_boston_u.Base.{
  ℕ, zero, suc, ◌≤◌, ◌<◌, ◌≡◌, ◌≢◌, ◌⊎◌, inl, inr, arith, List, some, get_elem?, get_elem?-some,
  get_elem?_lt, length, returns, ◌>>=◌, Bool-cases,
}
use cs_350_boston_u.Base.Int.{ℤ, pos, ◌≤ℤ◌, ◌<ℤ◌, eqb_ℤ, ltb_ℤ, eqb→eq}
use native.Mathlib.Decide.{dec_lt}
use cs_350_boston_u.Raft.State.{Raft, LogEntry}
use cs_350_boston_u.Raft.Append.{scan_down, find_conflict_index}

module _ {C : Type 0} where
  -- Where the search ends that goes down from index `i` while the terms are `t`.
  pub record Stops (log : List (LogEntry C)) (commit t : ℤ) (i k : ℕ) : Type 0 where
    pub below : k ≤ i
    pub found : LogEntry C
    pub at : get_elem? log k ≡ some found
    pub why : (pos k ≤ℤ commit) ⊎ (found.term ≢ t)
    pub passed :
        (j : ℕ) (e : LogEntry C)
        → k < j
        → j ≤ i
        → get_elem? log j ≡ some e
        → (commit <ℤ pos j) × (e.term ≡ t)

  Stops-here :
      (log : List (LogEntry C)) (commit t : ℤ) (i : ℕ) (e : LogEntry C)
      → get_elem? log i ≡ some e
      → (pos i ≤ℤ commit) ⊎ (e.term ≢ t)
      → Stops log commit t i i
  Stops-here log commit t i e at why = record {
    below = omega arith;
    found = e;
    at = at;
    why = why;
    passed = λ j e' a b. absurd (omega arith);
  }

  Stops-below :
      (log : List (LogEntry C)) (commit t : ℤ) (i k : ℕ) (e : LogEntry C)
      → Stops log commit t i k
      → get_elem? log (suc i) ≡ some e
      → commit <ℤ pos (suc i)
      → e.term ≡ t
      → Stops log commit t (suc i) k
  Stops-below log commit t i k e s at high same = record {
    below = omega (arith, s.below);
    found = s.found;
    at = s.at;
    why = s.why;
    passed = λ j e' a b at'. elim (dec_lt i j) [
      | yes top ↦ let eq : j ≡ suc i = omega arith in ground arith
      | no under ↦ s.passed j e' a (omega arith) at'
    ];
  }

  scan_down-Stops :
      (log : List (LogEntry C)) (commit t : ℤ) (i : ℕ)
      → pos 0 ≤ℤ commit
      → i < length log
      → (k : ℕ) × (scan_down log commit t i ≡ returns (pos k)) × Stops log commit t i k
  unfolding scan_down
  scan_down-Stops log commit t zero h lt =
      let (e, at) = get_elem?-some log 0 lt in
      (
        0,
        ground arith,
        record {
          below = omega arith;
          found = e;
          at = at;
          why = inl (omega arith);
          passed = λ j e' a b. absurd (omega arith);
        },
      )
  scan_down-Stops log commit t (suc i) h lt =
      let (e, at) = get_elem?-some log (suc i) lt in
      let (k, run, stops) = scan_down-Stops log commit t i h (omega arith) in
      elim (Bool-cases (ltb_ℤ commit (pos (suc i)))) [
        | inr low ↦
            (suc i, rw (low, scan_down), Stops-here log commit t (suc i) e at (inl (ground arith)))
        | inl high ↦ elim (Bool-cases (eqb_ℤ e.term t)) [
          | inr other ↦ (
            suc i,
            rw (high, scan_down) (rw (at, ◌>>=◌) (rw other)),
            Stops-here log commit t (suc i) e at (inr (λ q. ground arith)),
          )
          | inl same ↦ (
            k,
            rw (high, scan_down) (rw (at, ◌>>=◌) (rw same run)),
            Stops-below log commit t i k e stops at (ground arith) (eqb→eq e.term t same),
          )
        ]
      ]

  -- From an index in the log, with a commit index that is not negative, `findConflictIndex` ends
  -- within the log and at or below where it starts. It ends at a committed index or at an entry of
  -- another term, and every entry that it passed is uncommitted and has the term it started from.
  pub find_conflict_index-Stops :
      (rf : Raft C) (i : ℕ) (e : LogEntry C)
      → pos 0 ≤ℤ rf.commit_index
      → get_elem? rf.log i ≡ some e
      → (k : ℕ) × (find_conflict_index rf (pos i) ≡ returns (pos k))
        × Stops rf.log rf.commit_index e.term i k
  unfolding find_conflict_index
  find_conflict_index-Stops rf i e h at = elim (Bool-cases (ltb_ℤ rf.commit_index (pos i))) [
    | inl high ↦
        let (k, run, stops) =
          scan_down-Stops rf.log rf.commit_index e.term i h (get_elem?_lt rf.log i e at) in
        (k, rw (high, find_conflict_index) (rw (at, ◌>>=◌) run), stops)
    | inr low ↦ (
      i,
      rw (low, find_conflict_index),
      Stops-here rf.log rf.commit_index e.term i e at (inl (ground arith)),
    )
  ]
