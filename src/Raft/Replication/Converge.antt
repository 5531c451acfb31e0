-- ===== src/Raft/Replication/Converge.antt =====
-- Each round of `heartbeat` brings the follower's log up to the leader's, or goes back.
use cs_350_boston_u.Base.{
  ℕ, zero, suc, ◌^◌, ◌≤◌, ◌<◌, ◌≡◌, refl, sym, ap, ◌∙◌, ◌≢◌, ◌⊎◌, inl, inr, true, false, arith,
  ◌++◌, drop, some, get_elem?, get_elem?-some, length, take-append-drop, returns, Option-cases,
  Bool-cases, List,
}
use cs_350_boston_u.Base.Int.{ℤ, pos, eqb→eq, eqb_ℤ}
use cs_350_boston_u.Raft.State.{Raft, LogEntry, Codec, AppendEntriesReply}
use cs_350_boston_u.Raft.Append.Cases.{append_entries_match, append_entries_conflict}
use cs_350_boston_u.Raft.Leader.{handle_append_entries_response, adjust_next_based_on_reply}
use cs_350_boston_u.Raft.Replication.{heartbeat_round, heartbeat}
use cs_350_boston_u.Raft.Replication.Leader.{request, initiate-request, on_success_ends}
use cs_350_boston_u.Raft.Replication.Rounds.{Ready, request_not_beyond, refusal_goes_back}

-- A refusal leaves the follower as ready as before.
Ready-refused :
    {C : Type 0} (l f f' : Raft C) (server : ℕ) (term : ℤ)
    → Ready l f server term
    → f'.log ≡ f.log
    → f'.commit_index ≡ f.commit_index
    → f'.commits ≡ f.commits
    → f'.current_term ≡ term
    → Ready l f' server term
Ready-refused l f f' server term r log commit commits now = record {
  leads = r.leads;
  in_term = r.in_term;
  nonneg_term = rw now (omega (arith, r.nonneg_term, r.not_newer));
  not_newer = rw now (omega arith);
  nonneg_commit = rw commit r.nonneg_commit;
  has_entry = rw log r.has_entry;
  fits = r.fits;
  f_fits = rw log r.f_fits;
  l_room = r.l_room;
  f_room = rw commits r.f_room;
  in_next = r.in_next;
  in_match = r.in_match;
  matching = rw log r.matching;
  same_start = rw log r.same_start;
  up_to_date = rw log r.up_to_date;
}

same_or_other :
    {C : Type 0} (xs : List (LogEntry C)) (m : ℕ) (e : LogEntry C)
    → ((b : LogEntry C) × (get_elem? xs m ≡ some b) × (b.term ≡ e.term))
      ⊎ ((b : LogEntry C) → get_elem? xs m ≡ some b → b.term ≢ e.term)
same_or_other xs m e = elim (Option-cases (get_elem? xs m)) [
  | inl past ↦ inr (λ b at. cc)
  | inr (b, at) ↦ elim (Bool-cases (eqb_ℤ b.term e.term)) [
    | inl same ↦ inl (b, at, eqb→eq b.term e.term same)
    | inr other ↦ inr (λ b' at' q.
        let both : some b' ≡ some b = sym at' ∙ at in let eq : b' ≡ b = cc both in ground arith)
  ]
]

module _ {C : Type 0} ⦃codec : Codec C⦄ where
  hears_success :
      (l f : Raft C) (server : ℕ) (term next : ℤ) (m : ℕ) (e : LogEntry C)
      (reply : AppendEntriesReply)
      → Ready l f server term
      → reply.success ≡ true
      → reply.term ≡ f.current_term
      → (l' : Raft C) × (handle_append_entries_response l reply (request l m e) server next term
          ≡ returns (l', next, false))
        × (l'.log ≡ l.log)
  unfolding handle_append_entries_response
  hears_success l f server term next m e reply r good old =
      let (l', run, log) =
        on_success_ends l (request l m e) server next r.l_room r.in_next r.in_match in
      (l', ground (arith, run), log)

  hears_refusal :
      (l f : Raft C) (server : ℕ) (term next next' : ℤ) (m : ℕ) (e : LogEntry C)
      (reply : AppendEntriesReply)
      → Ready l f server term
      → reply.success ≡ false
      → reply.term ≡ f.current_term
      → adjust_next_based_on_reply l reply ≡ returns next'
      → handle_append_entries_response l reply (request l m e) server next term
        ≡ returns (l, next', true)
  unfolding handle_append_entries_response
  hears_refusal l f server term next next' m e reply r bad old run = ground arith

  round_accepts :
      (l f : Raft C) (server : ℕ) (term : ℤ) (m : ℕ) (e b : LogEntry C)
      → Ready l f server term
      → suc m ≤ length l.log
      → get_elem? l.log m ≡ some e
      → get_elem? f.log m ≡ some b
      → b.term ≡ e.term
      → (l' : Raft C) × (f' : Raft C) × (heartbeat_round l f server (pos (suc m)) term
          ≡ returns (l', f', pos (suc m), false))
        × (f'.log ≡ l.log)
        × (l'.log ≡ l.log)
  unfolding heartbeat_round
  round_accepts l f server term m e b r le at_l at_f same =
      let fits : length l.log < 2 ^ 63 = omega (arith, r.fits) in
      let (f', reply, run, good, old, acc) =
        append_entries_match f (request l m e) m b refl (rw r.in_term r.not_newer)
          (request_not_beyond l f.log m e le r.fits r.has_entry r.up_to_date) at_f same r.f_room in
      let (l', heard, log) = hears_success l f server term (pos (suc m)) m e reply r good old in
      (
        l',
        f',
        rw (initiate-request l m e at_l le fits) (rw run (rw heard)),
        acc.log
            ∙ ap (λ xs. xs ++ drop (suc m) l.log) (sym (r.matching m e b at_l at_f (sym same)))
            ∙ take-append-drop (suc m) l.log,
        log,
      )

  round_refuses :
      (l f : Raft C) (server : ℕ) (term : ℤ) (m : ℕ) (e : LogEntry C)
      → Ready l f server term
      → suc m ≤ length l.log
      → get_elem? l.log m ≡ some e
      → ((b : LogEntry C) → get_elem? f.log m ≡ some b → b.term ≢ e.term)
      → (f' : Raft C) × (j : ℕ) × (heartbeat_round l f server (pos (suc m)) term
          ≡ returns (l, f', pos (suc j), true))
        × (suc j ≤ m)
        × Ready l f' server term
  unfolding heartbeat_round
  round_refuses l f server term m e r le at_l other =
      let fits : length l.log < 2 ^ 63 = omega (arith, r.fits) in
      let (f', reply, run, no_good) =
        append_entries_conflict f (request l m e) m refl (rw r.in_term r.not_newer)
          (request_not_beyond l f.log m e le r.fits r.has_entry r.up_to_date) r.nonneg_commit
          r.has_entry other in
      let (j, lt, back) =
        refusal_goes_back l f server term m e reply r at_l le no_good.k no_good.found no_good.at
          no_good.index no_good.term_there no_good.back in
      (
        f',
        j,
        rw (initiate-request l m e at_l le fits) (
            rw run (
              rw (
                hears_refusal l f server term (pos (suc m)) (pos (suc j)) m e reply r
                  no_good.refused no_good.old_term back))),
        lt,
        Ready-refused l f f' server term r no_good.same_log no_good.same_commit no_good.same_commits
            (no_good.new_term ∙ r.in_term),
      )

  -- Run by the leader of the term from `next = m + 1` within its log, with no message lost and
  -- nothing in between, the loop of `heartbeat` ends within `m + 1` rounds, and the follower then
  -- has the leader's log, which has stayed. The follower's term is not newer; the logs match (an
  -- equal index and term means equal prefixes) and begin with entries of one term; the leader's log
  -- is as up to date as the follower's; both are shorter than 2^62, and both channels `Commit` have
  -- room.
  pub heartbeat_replicates :
      (rounds : ℕ) (l f : Raft C) (server : ℕ) (term : ℤ) (m : ℕ)
      → Ready l f server term
      → suc m ≤ length l.log
      → suc m ≤ rounds
      → (l' : Raft C) × (f' : Raft C) × (heartbeat rounds l f server (pos (suc m)) term
          ≡ returns (some (l', f')))
        × (f'.log ≡ l.log)
        × (l'.log ≡ l.log)
  unfolding heartbeat
  heartbeat_replicates zero l f server term m r le enough = absurd (omega arith)
  heartbeat_replicates (suc n) l f server term m r le enough =
      let (e, at_l) = get_elem?-some l.log m le in
      elim (same_or_other f.log m e) [
        | inl (b, at_f, same) ↦
            let (l', f', run, done, kept) =
              round_accepts l f server term m e b r le at_l at_f same in
            (l', f', ground (arith, run, r.leads, r.in_term), done, kept)
        | inr other ↦
            let (f1, j, run, lt, again) = round_refuses l f server term m e r le at_l other in
            let (l', f', rest, done, kept) =
              heartbeat_replicates n l f1 server term j again (omega arith) (omega arith) in
            (l', f', ground (arith, run, rest, r.leads, r.in_term), done, kept)
      ]
