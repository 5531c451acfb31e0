-- ===== src/Raft/Replication/Rounds.antt =====
-- The loop of `heartbeat` ends, with the leader's log at the follower.
use cs_350_boston_u.Base.{
  ℕ, zero, suc, ◌-◌, ◌^◌, ◌≤◌, ◌<◌, ◌≡◌, refl, sym, ap, ◌∙◌, ◌≢◌, ◌⊎◌, inl, inr, false, arith, List,
  [], ◌∷◌, take, drop, some, get_elem?, get_elem?-some, get_elem?-drop, length, length-drop,
  returns, Bool-cases, if◌then◌else◌,
}
use native.Mathlib.Decide.{dec_lt}
use cs_350_boston_u.Base.Int.{ℤ, pos, ◌≤ℤ◌, ◌<ℤ◌, eqb_ℤ, eqb→eq}
use cs_350_boston_u.Base.Word.{add_int-pos}
use cs_350_boston_u.Raft.State.{
  Raft, Role, LogEntry, AppendEntriesReply, commit_capacity, last_entry, last_term,
}
use cs_350_boston_u.Raft.Append.Stages.{beyond}
use cs_350_boston_u.Raft.Leader.{adjust_next_based_on_reply}
use cs_350_boston_u.Raft.Replication.Leader.{request, adjust_back}

module _ {C : Type 0} where
  -- Raft's log matching property: two entries of one index and term end equal prefixes.
  abbrev pub LogMatching : List (LogEntry C) → List (LogEntry C) → Type 0
  LogMatching xs ys =
      (i : ℕ) (a b : LogEntry C)
      → get_elem? xs i ≡ some a
      → get_elem? ys i ≡ some b
      → a.term ≡ b.term
      → take (suc i) xs ≡ take (suc i) ys

  -- Both logs begin with the entry that `Make` puts there, at the same term.
  abbrev pub SameStart : List (LogEntry C) → List (LogEntry C) → Type 0
  SameStart xs ys =
      (a b : LogEntry C) → get_elem? xs 0 ≡ some a → get_elem? ys 0 ≡ some b → a.term ≡ b.term

  -- The leader's log is at least as up to date as the follower's.
  abbrev pub UpToDate : List (LogEntry C) → List (LogEntry C) → Type 0
  UpToDate xs ys =
      (last_term ys <ℤ last_term xs) ⊎ ((last_term ys ≡ last_term xs) × (length ys ≤ length xs))

  -- What the loop needs of the two peers.
  pub record Ready (l f : Raft C) (server : ℕ) (term : ℤ) : Type 0 where
    pub leads : l.role ≡ Role.leader
    pub in_term : l.current_term ≡ term
    pub nonneg_term : pos 0 ≤ℤ f.current_term
    pub not_newer : f.current_term ≤ℤ term
    pub nonneg_commit : pos 0 ≤ℤ f.commit_index
    pub has_entry : 0 < length f.log
    pub fits : length l.log < 2 ^ 62
    pub f_fits : length f.log < 2 ^ 62
    pub l_room : l.commits < commit_capacity
    pub f_room : f.commits < commit_capacity
    pub in_next : server < length l.next_index
    pub in_match : server < length l.match_index
    pub matching : LogMatching l.log f.log
    pub same_start : SameStart l.log f.log
    pub up_to_date : UpToDate l.log f.log

  last_entry-drop :
      (n : ℕ) (xs : List (LogEntry C)) → n < length xs → last_entry (drop n xs) ≡ last_entry xs
  last_entry-drop n xs lt =
      get_elem?-drop n xs _ ∙ ap (get_elem? xs) (omega (arith, length-drop n xs))

  drop_all : (n : ℕ) (xs : List (LogEntry C)) → length xs ≤ n → drop n xs ≡ []
  drop_all zero [] h = refl
  drop_all zero (x ∷ xs) h = absurd (omega arith)
  drop_all (suc n) [] h = refl
  drop_all (suc n) (x ∷ xs) h = drop_all n xs (omega arith)

  -- An up-to-date leader is never refused as behind.
  pub request_not_beyond :
      (l : Raft C) (ys : List (LogEntry C)) (m : ℕ) (e : LogEntry C)
      → m < length l.log
      → length l.log < 2 ^ 62
      → 0 < length ys
      → UpToDate l.log ys
      → beyond ys (request l m e) ≡ false
  request_not_beyond l ys m e lt fits ne up = elim (dec_lt (suc m) (length l.log)) [
    | no all ↦ let none_left = drop_all (suc m) l.log (omega arith) in ground (arith, none_left)
    | yes more ↦
        let (x, at) = get_elem?-some l.log (length l.log - 1) (omega arith) in
        let (y, at') = get_elem?-some ys (length ys - 1) (omega arith) in
        ground (
          arith,
          last_entry-drop (suc m) l.log more ∙ at,
          at,
          at',
          up,
          length-drop (suc m) l.log,
          add_int-pos m (length (drop (suc m) l.log)),
        )
  ]

  not_at_top :
      (xs : List (LogEntry C)) (m k : ℕ) (e x found : LogEntry C)
      → get_elem? xs m ≡ some e
      → get_elem? xs k ≡ some x
      → x.term ≡ found.term
      → (k < m) ⊎ ((k ≡ m) × (found.term ≢ e.term))
      → suc k ≤ m
  not_at_top xs m k e x found at at' same (inl lt) = lt
  not_at_top xs m k e x found at at' same (inr (top, other)) =
      let both : some x ≡ some e = sym at' ∙ ap (λ (j : ℕ). get_elem? xs j) top ∙ at in
      let eq : x ≡ e = cc both in absurd (other (sym same ∙ ap (λ (y : LogEntry C). y.term) eq))

  not-SameStart :
      (xs ys : List (LogEntry C)) (k : ℕ) (x y : LogEntry C)
      → SameStart xs ys
      → get_elem? xs k ≡ some x
      → get_elem? ys k ≡ some y
      → k ≡ 0
      → x.term ≢ y.term
      → ⊥
  not-SameStart xs ys k x y start at at' z other = other (
      start x y (ap (λ (j : ℕ). get_elem? xs j) (sym z) ∙ at)
        (ap (λ (j : ℕ). get_elem? ys j) (sym z) ∙ at'))

  -- What a refusal makes of `next`: it goes back by one or more, and stays above 0.
  pub refusal_goes_back :
      (l f : Raft C) (server : ℕ) (term : ℤ) (m : ℕ) (e : LogEntry C) (reply : AppendEntriesReply)
      → Ready l f server term
      → get_elem? l.log m ≡ some e
      → suc m ≤ length l.log
      → (k : ℕ) (found : LogEntry C) → get_elem? f.log k ≡ some found
      → reply.new_index ≡ pos k
      → reply.new_term ≡ found.term
      → (k < m) ⊎ ((k ≡ m) × (found.term ≢ e.term))
      → (j : ℕ) × (suc j ≤ m) × (adjust_next_based_on_reply l reply ≡ returns (pos (suc j)))
  refusal_goes_back l f server term m e reply r at le k found at_f ek ex back =
      let (x, at_l) = get_elem?-some l.log k (omega arith) in
      let run = adjust_back l reply k x ek at_l (omega (arith, r.fits)) in
      elim (Bool-cases (eqb_ℤ x.term reply.new_term)) [
        | inl same ↦ (
          k,
          not_at_top l.log m k e x found at at_l (eqb→eq x.term reply.new_term same ∙ ex) back,
          run ∙ ap (λ b. returns (if b then pos (suc k) else pos k)) same,
        )
        | inr other ↦
            let nonzero : k ≢ 0 = λ z.
              not-SameStart l.log f.log k x found r.same_start at_l at_f z (λ q. ground (arith)) in
            (
              k - 1,
              omega arith,
              run
                  ∙ ap (λ b. returns (if b then pos (suc k) else pos k)) other
                  ∙ ap (λ n. returns (pos n)) (omega arith),
            )
      ]
