-- ===== src/Raft/Apply/Delivery.antt =====
-- raft.go, `applyCommits`: what goes to the service.
use cs_350_boston_u.Base.{
  ℕ, zero, suc, ◌+◌, ◌-◌, ◌^◌, ◌≤◌, ◌<◌, ◌≡◌, refl, ◌∙◌, ap, arith, List, [], ◌∷◌, length,
  get_elem?, take, drop, returns, panics, some, get_elem?-some, get_elem?-none, length-take,
  length-drop,
}
use native.Mathlib.Decide.{dec_lt}
use cs_350_boston_u.Base.Int.{pos, pos_part, ◌-ℤ◌, sub-pos}
use cs_350_boston_u.Base.Word.{add_int, add_int-pos}
use cs_350_boston_u.Raft.State.{Raft, LogEntry}
use cs_350_boston_u.Raft.Apply.{
  ApplyMsg, message, prepare_from, prepare_messages, apply_messages, apply_commits,
}

zero_left : (a c : ℕ) → a ≤ c → ¬ (a < c) → c - a ≡ 0
zero_left a c le stay = omega arith

module _ {C : Type 0} where
  -- The messages for a run of entries, numbered from an index.
  abbrev pub numbered : ℕ → List (LogEntry C) → List (ApplyMsg C)
  numbered i [] = []
  numbered i (e ∷ es) = message e (pos i) ∷ numbered (suc i) es

  take-drop-suc :
      (log : List (LogEntry C)) (i n : ℕ) (e : LogEntry C)
      → get_elem? log i ≡ some e
      → take (suc n) (drop i log) ≡ e ∷ take n (drop (suc i) log)
  take-drop-suc [] i n e h = cc
  take-drop-suc (x ∷ log) zero n e h = ground arith
  take-drop-suc (x ∷ log) (suc i) n e h = take-drop-suc log i n e h

  prepare_from_all :
      (rounds i : ℕ) (log : List (LogEntry C))
      → i + rounds ≤ length log
      → length log < 2 ^ 62
      → prepare_from rounds (pos i) log ≡ returns (numbered i (take rounds (drop i log)))
  unfolding prepare_from
  prepare_from_all zero i log fits small = refl
  prepare_from_all (suc rounds) i log fits small =
      let (e, found) = get_elem?-some log i (omega arith) in
      let rest = prepare_from_all rounds (suc i) log (omega arith) small in
      let next : add_int (pos i) (pos 1) ≡ pos (suc i) =
        add_int-pos i 1 (omega arith) ∙ ap pos (omega arith) in
      ground (arith, found, next, rest, take-drop-suc log i rounds e found)

  prepare_from_beyond :
      (rounds i : ℕ) (log : List (LogEntry C))
      → length log < i + rounds
      → 0 < rounds
      → i + rounds < 2 ^ 63
      → prepare_from rounds (pos i) log ≡ panics
  unfolding prepare_from
  prepare_from_beyond zero i log out some_round small = absurd (omega arith)
  prepare_from_beyond (suc rounds) i log out some_round small =
      let next : add_int (pos i) (pos 1) ≡ pos (suc i) =
        add_int-pos i 1 (omega arith) ∙ ap pos (omega arith) in
      elim (dec_lt i (length log)) [
        | no here ↦ rw (get_elem?-none log i (omega arith)) refl
        | yes more ↦
            let (e, found) = get_elem?-some log i more in
            ground (
              arith,
              found,
              next,
              prepare_from_beyond rounds (suc i) log (omega arith) (omega arith) (omega arith),
            )
      ]

  apply_messages-numbered :
      (r : Raft C) (i : ℕ) (es : List (LogEntry C))
      → apply_messages (record r { last_applied = pos i }) (numbered (suc i) es)
        ≡ record r { last_applied = pos (i + length es) }
  unfolding apply_messages
  apply_messages-numbered r i [] = ap (λ n. record r { last_applied = pos n }) (omega arith)
  apply_messages-numbered r i (e ∷ es) =
      apply_messages-numbered r (suc i) es
      ∙ ap (λ n. record r { last_applied = pos n }) (omega arith)

  prepare_messages-from :
      (r : Raft C) (a c : ℕ)
      → r.last_applied ≡ pos a
      → r.commit_index ≡ pos c
      → a ≤ c
      → a < 2 ^ 62
      → prepare_messages r ≡ prepare_from (c - a) (pos (suc a)) r.log
  unfolding prepare_messages
  prepare_messages-from r a c at_a at_c le small =
      (λ i. prepare_from (pos_part (at_c i -ℤ at_a i)) (add_int (at_a i) (pos 1)) r.log)
      ∙ (λ i. prepare_from (pos_part (sub-pos c a le i)) (add_int-pos a 1 (omega arith) i) r.log)
      ∙ ap (λ k. prepare_from (c - a) (pos k) r.log) (omega arith)

  apply_messages-from :
      (r : Raft C) (a : ℕ) (es : List (LogEntry C))
      → r.last_applied ≡ pos a
      → apply_messages r (numbered (suc a) es) ≡ record r { last_applied = pos (a + length es) }
  apply_messages-from r a es at =
      (λ i. apply_messages (record r { last_applied = at i }) (numbered (suc a) es))
      ∙ apply_messages-numbered r a es

  -- When the commit index is that of an entry of the log, which is shorter than 2^62, and not below
  -- the last applied index, the service gets the entries after the last applied one and up to the
  -- commit index, in order, each with its index; and the last applied index becomes the commit
  -- index.
  pub apply_commits_delivers :
      (r : Raft C) (a c : ℕ)
      → r.last_applied ≡ pos a
      → r.commit_index ≡ pos c
      → a ≤ c
      → c < length r.log
      → length r.log < 2 ^ 62
      → apply_commits r
        ≡ returns (
          record r { last_applied = pos c },
          numbered (suc a) (take (c - a) (drop (suc a) r.log)),
        )
  unfolding apply_commits
  apply_commits_delivers r a c at_a at_c le fits small =
      let es = take (c - a) (drop (suc a) r.log) in
      let msgs : prepare_messages r ≡ returns (numbered (suc a) es) =
        prepare_messages-from r a c at_a at_c le (omega (arith, fits, small))
        ∙ prepare_from_all (c - a) (suc a) r.log (omega (arith, fits)) small in
      let all : a + length es ≡ c =
        omega (arith, length-take (c - a) (drop (suc a) r.log), length-drop (suc a) r.log, fits) in
      let run : apply_messages r (numbered (suc a) es) ≡ record r { last_applied = pos c } =
        apply_messages-from r a es at_a ∙ ap (λ n. record r { last_applied = pos n }) all in
      elim (dec_lt a c) [
        | yes more ↦ ground (arith, msgs, run, at_a, at_c)
        | no stay ↦
            let none_left : es ≡ [] =
              ap (λ n. take n (drop (suc a) r.log)) (zero_left a c le stay) in
            let same : a ≡ c = omega arith in ground (arith, none_left, at_a, at_c, same)
      ]

  -- When the commit index is beyond the last entry and above the last applied index, and below
  -- 2^62, the call panics.
  pub apply_commits_panics :
      (r : Raft C) (a c : ℕ)
      → r.last_applied ≡ pos a
      → r.commit_index ≡ pos c
      → a < c
      → length r.log ≤ c
      → c < 2 ^ 62
      → apply_commits r ≡ panics
  unfolding apply_commits
  apply_commits_panics r a c at_a at_c le out small =
      let beyond : prepare_messages r ≡ panics =
        prepare_messages-from r a c at_a at_c (omega arith) (omega (arith, out, small))
        ∙ prepare_from_beyond (c - a) (suc a) r.log (omega arith) (omega arith)
            (omega (arith, small)) in
      ground (arith, beyond, at_a, at_c)
