-- ===== src/Raft/Leader/Commit.antt =====
-- Which entries a leader commits.
use cs_350_boston_u.Base.{
  ℕ, zero, suc, ◌+◌, ◌-◌, ◌/◌, ◌^◌, ◌≤◌, ◌<◌, ◌≡◌, refl, ◌∙◌, ap, ◌↔◌, inl, inr, Bool, true, false,
  ◌||◌, arith, List, [], ◌∷◌, length, returns, ltb, if◌then◌else◌, Bool-cases,
}
use native.Mathlib.Decide.{dec_lt}
use cs_350_boston_u.Base.Int.{ℤ, pos, leb_ℤ, pos_part, ◌-ℤ◌, sub-pos}
use cs_350_boston_u.Base.Word.{add_int, add_int-pos}
use cs_350_boston_u.Raft.State.{Raft, commit_capacity}
use cs_350_boston_u.Raft.Leader.{
  count_up, is_majority_replicated, commit_loop, rounds_left, update_commit_index,
}

-- How many peers have an entry at the index, by what they have confirmed.
abbrev pub replicas : ℤ → List ℤ → ℕ
replicas index [] = 0
replicas index (m ∷ ms) = (if leb_ℤ index m then 1 else 0) + replicas index ms

count_up_iff :
    (ms : List ℤ) (index : ℤ) (majority count : ℕ)
    → count ≤ majority
    → (count_up ms index majority count ≡ true) ↔ (majority < count + replicas index ms)
unfolding count_up
count_up_iff [] index majority count h = ground arith
count_up_iff (m ∷ ms) index majority count h =
    ground
      (arith, count_up_iff ms index majority (count + 1), count_up_iff ms index majority count h)

module _ {C : Type 0} where
  -- The test counts past the early exit as a plain count would: it holds exactly when more than half
  -- of the peers have confirmed the index.
  pub is_majority_replicated_iff :
      (rf : Raft C) (index : ℤ)
      → (is_majority_replicated rf index ≡ true)
        ↔ (rf.num_peers / 2 < replicas index rf.match_index)
  unfolding is_majority_replicated
  is_majority_replicated_iff rf index =
      let both = count_up_iff rf.match_index index (rf.num_peers / 2) 0 (omega arith) in
      (λ h. omega (arith, both.0 h), λ h. both.1 (omega arith))

  -- The commit index has moved from `c` to `d`, over the indexes that most peers have and no further.
  pub record Moves (rf : Raft C) (c d limit : ℕ) : Type 0 where
    pub up : c ≤ d
    pub bounded : d ≤ limit
    pub replicated : (i : ℕ) → c < i → i ≤ d → is_majority_replicated rf (pos i) ≡ true
    pub stopped : d < limit → is_majority_replicated rf (pos (suc d)) ≡ false

  Moves-suc :
      (rf : Raft C) (c d limit : ℕ)
      → is_majority_replicated rf (pos (suc c)) ≡ true
      → Moves rf (suc c) d limit
      → Moves rf c d limit
  Moves-suc rf c d limit first m = record {
    up = omega (arith, m.up);
    bounded = m.bounded;
    replicated = λ i lo hi. elim (dec_lt (suc c) i) [
      | yes more ↦ m.replicated i more hi
      | no here ↦ let e : i ≡ suc c = omega arith in rw e first
    ];
    stopped = m.stopped;
  }

  Moves-refl :
      (rf : Raft C) (c limit : ℕ)
      → c ≤ limit
      → (c < limit → is_majority_replicated rf (pos (suc c)) ≡ false)
      → Moves rf c c limit
  Moves-refl rf c limit le stop = record {
    up = omega arith;
    bounded = le;
    replicated = λ i lo hi. absurd (omega arith);
    stopped = stop;
  }

  -- The test does not look at the commit index.
  is_majority_replicated-commit :
      (rf : Raft C) (c i : ℤ)
      → is_majority_replicated (record rf { commit_index = c }) i ≡ is_majority_replicated rf i
  unfolding is_majority_replicated
  is_majority_replicated-commit rf c i = refl

  commit_loop-Moves :
      (n : ℕ) (rf : Raft C) (c limit : ℕ) (go : Bool)
      → c + n ≡ limit
      → limit < 2 ^ 63
      → (d : ℕ) × Moves rf c d limit
        × (commit_loop n (pos (suc c)) (record rf { commit_index = pos c }) go
            ≡ (record rf { commit_index = pos d }, go || ltb c d))
  unfolding commit_loop
  commit_loop-Moves zero rf c limit go e fits =
      (c, Moves-refl rf c limit (omega arith) (λ more. absurd (omega arith)), ground arith)
  commit_loop-Moves (suc n) rf c limit go e fits =
      elim (Bool-cases (is_majority_replicated rf (pos (suc c)))) [
        | inr short ↦ (
          c,
          Moves-refl rf c limit (omega arith) (λ _. short),
          ground (arith, is_majority_replicated-commit rf (pos c) (pos (suc c))),
        )
        | inl most ↦
            let (d, m, run) = commit_loop-Moves n rf (suc c) limit true (omega arith) fits in
            let up = m.up in
            (
              d,
              Moves-suc rf c d limit most m,
              ground (
                arith,
                is_majority_replicated-commit rf (pos c) (pos (suc c)),
                add_int-pos (suc c) 1,
                run,
              ),
            )
      ]

  -- What `updateCommitIndex` makes of the peer when the commit index goes from `c` to `d`.
  abbrev pub moved : Raft C → ℕ → ℕ → Raft C
  moved rf c d = record rf {
    commit_index = pos d;
    commits = if ltb c d then rf.commits + 1 else rf.commits;
  }

  -- From a commit index within the log, which is shorter than 2^62, with room in the channel
  -- `Commit`, `updateCommitIndex` raises the commit index over every index that most peers have
  -- confirmed, up to the first that they have not or to the length of the log. It signals exactly
  -- if the index has moved, and changes nothing else.
  pub update_commit_index-Moves :
      (rf : Raft C) (c : ℕ)
      → rf.commit_index ≡ pos c
      → c ≤ length rf.log
      → length rf.log < 2 ^ 62
      → rf.commits < commit_capacity
      → (d : ℕ) × Moves rf c d (length rf.log) × (update_commit_index rf ≡ returns (moved rf c d))
  unfolding update_commit_index
  update_commit_index-Moves rf c at le fits room =
      let (d, m, run) =
        commit_loop-Moves (length rf.log - c) rf c (length rf.log) false (omega arith)
          (omega (arith, fits)) in
      let rounds : rounds_left rf ≡ length rf.log - c =
        ap (λ z. pos_part (pos (length rf.log) -ℤ z)) at
        ∙ ap pos_part (sub-pos (length rf.log) c le) in
      let first : add_int rf.commit_index (pos 1) ≡ pos (suc c) =
        ap (λ z. add_int z (pos 1)) at ∙ add_int-pos c 1 (omega arith) ∙ ap pos (omega arith) in
      let loop : commit_loop (rounds_left rf) (add_int rf.commit_index (pos 1)) rf false
          ≡ (record rf { commit_index = pos d }, ltb c d) =
        (λ i. commit_loop (rounds i) (first i) (record rf { commit_index = at i }) false) ∙ run in
      (d, m, ground (arith, loop))
