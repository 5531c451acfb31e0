-- ===== src/Raft/Append/Cases.antt =====
-- What `AppendEntries` does in each case: it refuses an old leader, reports a conflict, or replaces the
-- end of the log.
use cs_350_boston_u.Base.{
  ℕ, suc, ◌+◌, ◌-◌, ◌<◌, ◌≡◌, refl, ap, sym, ◌≢◌, ◌∙◌, ◌⊎◌, inl, inr, true, false, arith, List,
  ◌++◌, take, some, none, get_elem?, get_elem?_ge, length, returns, Option-cases,
}
use native.Mathlib.Decide.{dec_lt}
use cs_350_boston_u.Base.Int.{ℤ, pos, ◌≤ℤ◌, ◌<ℤ◌}
use cs_350_boston_u.Raft.State.{
  Raft, LogEntry, Codec, AppendEntriesArgs, AppendEntriesReply, last_term, last_index,
  commit_capacity, minus_one,
}
use cs_350_boston_u.Raft.Append.{
  check_term_with_leader, append_entries_if_log_matches, finish_append, append_entries,
}
use cs_350_boston_u.Raft.Append.Conflict.{Stops}
use cs_350_boston_u.Raft.Append.Stages.{
  noted, entered, first_reply, beyond, Entered, entered-Entered, matches_appends, matches_short,
  matches_conflict, after_match, append_entries_enters, compare_logs_goes_on, finish_append_ends,
}

module _ {C : Type 0} ⦃codec : Codec C⦄ where
  -- A request of an older term is refused. Nothing of the peer changes but the election timer, which
  -- starts again, and the note of the last entry.
  append_entries_old :
      (rf : Raft C) (args : AppendEntriesArgs C)
      → args.term <ℤ rf.current_term
      → append_entries rf args
        ≡ returns (
          record rf {
            log_prev_index = last_index rf.log;
            log_prev_term = last_term rf.log;
            election_resets = rf.election_resets + 1;
          },
          record {
            term = rf.current_term;
            success = false;
            new_term = last_term rf.log;
            new_index = last_index rf.log;
          },
        )
  unfolding append_entries check_term_with_leader
  append_entries_old rf args old = ground arith

  -- What an accepted request leaves.
  pub record Accepted (rf : Raft C) (args : AppendEntriesArgs C) (m : ℕ) (rf' : Raft C)
      : Type 0 where
    pub log : rf'.log ≡ take (suc m) rf.log ++ args.entries
    pub term : rf'.current_term ≡ args.term
    pub commit :
        (rf'.commit_index ≡ rf.commit_index)
        ⊎ ((rf.commit_index <ℤ args.leader_commit)
            × (rf'.commit_index ≤ℤ args.leader_commit)
            × (rf'.commit_index ≤ℤ pos (length rf'.log)))
    pub vote :
        ((rf.current_term ≡ args.term) × (rf'.voted_for ≡ rf.voted_for))
        ⊎ ((rf.current_term <ℤ args.term) × (rf'.voted_for ≡ minus_one))
    pub saved :
        rf'.persister.raftstate
        ≡ codec.encode
            (record { term = rf'.current_term; voted_for = rf'.voted_for; log = rf'.log })

  -- What a refused request leaves, and what its reply says of the entry where the logs differ.
  pub record Refused (rf : Raft C) (args : AppendEntriesArgs C) (m : ℕ) (rf' : Raft C)
      (reply : AppendEntriesReply) : Type 0 where
    pub refused : reply.success ≡ false
    pub old_term : reply.term ≡ rf.current_term
    pub k : ℕ
    pub found : LogEntry C
    pub at : get_elem? rf.log k ≡ some found
    pub index : reply.new_index ≡ pos k
    pub term_there : reply.new_term ≡ found.term
    pub back : (k < m) ⊎ ((k ≡ m) × (found.term ≢ args.prev_log_term))
    pub same_log : rf'.log ≡ rf.log
    pub same_commit : rf'.commit_index ≡ rf.commit_index
    pub same_commits : rf'.commits ≡ rf.commits
    pub new_term : rf'.current_term ≡ args.term

  abbrev Goes : Raft C → AppendEntriesArgs C → Raft C → Type 0
  Goes rf args r =
      append_entries rf args
      ≡ after_match codec args (append_entries_if_log_matches (noted r) args (first_reply rf))

  goes_back :
      (log : List (LogEntry C)) (commit p : ℤ) (m k : ℕ) (e : LogEntry C)
      (st : Stops log commit e.term m k)
      → get_elem? log m ≡ some e
      → e.term ≢ p
      → (k < m) ⊎ ((k ≡ m) × (st.found.term ≢ p))
  goes_back log commit p m k e st at other = elim (dec_lt k m) [
    | yes lt ↦ inl lt
    | no ge ↦
        let top : k ≡ m = omega (arith, st.below) in
        let both : some st.found ≡ some e = sym st.at ∙ ap (λ (j : ℕ). get_elem? log j) top ∙ at in
        let same : st.found ≡ e = cc both in
        inr (top, λ q. other (sym (ap (λ (x : LogEntry C). x.term) same) ∙ q))
  ]

  reduces :
      (rf : Raft C) (args : AppendEntriesArgs C)
      → rf.current_term ≤ℤ args.term
      → beyond rf.log args ≡ false
      → Goes rf args (entered rf args)
  reduces rf args cur nb =
      append_entries_enters rf args cur
      ∙ compare_logs_goes_on (entered rf args) args (first_reply rf)
          (rw (entered-Entered rf args cur).log nb)

  module _ (rf : Raft C) (args : AppendEntriesArgs C) (m : ℕ) (ep : args.prev_log_index ≡ pos m)
      (r : Raft C) (goes : Goes rf args r) (h : Entered rf args r) where
    matching :
        (e : LogEntry C)
        → get_elem? rf.log m ≡ some e
        → e.term ≡ args.prev_log_term
        → rf.commits < commit_capacity
        → (rf' : Raft C) × (reply : AppendEntriesReply) × (append_entries rf args
            ≡ returns (rf', reply))
          × (reply.success ≡ true)
          × (reply.term ≡ rf.current_term)
          × Accepted rf args m rf'
    matching e at same room =
        let q = record (noted (noted r)) { log = take (suc m) r.log ++ args.entries } in
        let (rf', run, f) = finish_append_ends q args (first_reply rf) (omega (arith, h.commits)) in
        (
          rf',
          first_reply rf,
          goes
              ∙ ap (after_match codec args)
                  (matches_appends (noted r) args (first_reply rf) m e ep (rw h.log at) same)
              ∙ run,
          refl,
          refl,
          record {
            log = f.log ∙ ap (λ l. take (suc m) l ++ args.entries) h.log;
            term = f.term ∙ h.term;
            commit = ground (arith, f.raised, f.log, h.commit);
            vote = rw f.vote h.vote;
            saved = f.saved;
          },
        )

    past_end :
        0 < length rf.log
        → get_elem? rf.log m ≡ none
        → (rf' : Raft C) × (reply : AppendEntriesReply) × (append_entries rf args
            ≡ returns (rf', reply))
          × Refused rf args m rf' reply
    unfolding finish_append
    past_end some_entry past =
        let short = get_elem?_ge rf.log m past in
        let (e, at, run) =
          matches_short (noted r) args (first_reply rf) m ep (rw h.log some_entry)
            (rw h.log short) in
        (
          noted (noted r),
          _,
          goes ∙ ap (after_match codec args) run,
          record {
            refused = refl;
            old_term = refl;
            k = length r.log - 1;
            found = e;
            at = ap (λ l. get_elem? l (length r.log - 1)) (sym h.log) ∙ at;
            index = refl;
            term_there = refl;
            back = inl (rw h.log (omega arith));
            same_log = h.log;
            same_commit = h.commit;
            same_commits = h.commits;
            new_term = h.term;
          },
        )

    conflicting :
        (e : LogEntry C)
        → pos 0 ≤ℤ rf.commit_index
        → get_elem? rf.log m ≡ some e
        → e.term ≢ args.prev_log_term
        → (rf' : Raft C) × (reply : AppendEntriesReply) × (append_entries rf args
            ≡ returns (rf', reply))
          × Refused rf args m rf' reply
    unfolding finish_append
    conflicting e nonneg at other =
        let (k, st, run) =
          matches_conflict (noted r) args (first_reply rf) m e ep (rw h.commit nonneg) (rw h.log at)
            other in
        (
          noted (noted r),
          _,
          goes ∙ ap (after_match codec args) run,
          record {
            refused = refl;
            old_term = refl;
            k = k;
            found = st.found;
            at = ap (λ l. get_elem? l k) (sym h.log) ∙ st.at;
            index = refl;
            term_there = refl;
            back = goes_back r.log r.commit_index args.prev_log_term m k e st (rw h.log at) other;
            same_log = h.log;
            same_commit = h.commit;
            same_commits = h.commits;
            new_term = h.term;
          },
        )

  -- For a request whose term is not older and whose entries do not end before the peer's log, with
  -- room in the channel `Commit`: where the peer has an entry of the term that the leader has
  -- there, its log is cut behind that entry and the sent entries are added; the reply reports
  -- success under the old term. The commit index stays, or moves up to at most the leader's and the
  -- length of the log. The term becomes that of the request; the vote stays in the same term, and
  -- is given up for a newer one. The term, the vote and the log that the peer has then are saved.
  pub append_entries_match :
      (rf : Raft C) (args : AppendEntriesArgs C) (m : ℕ) (e : LogEntry C)
      → args.prev_log_index ≡ pos m
      → rf.current_term ≤ℤ args.term
      → beyond rf.log args ≡ false
      → get_elem? rf.log m ≡ some e
      → e.term ≡ args.prev_log_term
      → rf.commits < commit_capacity
      → (rf' : Raft C) × (reply : AppendEntriesReply) × (append_entries rf args
          ≡ returns (rf', reply))
        × (reply.success ≡ true)
        × (reply.term ≡ rf.current_term)
        × Accepted rf args m rf'
  append_entries_match rf args m e ep cur nb =
      matching rf args m ep (entered rf args) (reduces rf args cur nb) (entered-Entered rf args cur)
        e

  -- For a request whose term is not older and whose entries do not end before the peer's log, at a
  -- peer with a log and a commit index that is not negative: where the peer has no entry, or one of
  -- another term, the log and the commit index stay. The reply refuses, and names an entry of the
  -- log before that index, or the one at that index.
  pub append_entries_conflict :
      (rf : Raft C) (args : AppendEntriesArgs C) (m : ℕ)
      → args.prev_log_index ≡ pos m
      → rf.current_term ≤ℤ args.term
      → beyond rf.log args ≡ false
      → pos 0 ≤ℤ rf.commit_index
      → 0 < length rf.log
      → ((e : LogEntry C) → get_elem? rf.log m ≡ some e → e.term ≢ args.prev_log_term)
      → (rf' : Raft C) × (reply : AppendEntriesReply) × (append_entries rf args
          ≡ returns (rf', reply))
        × Refused rf args m rf' reply
  append_entries_conflict rf args m ep cur nb nonneg some_entry other =
      let goes = reduces rf args cur nb in
      let h = entered-Entered rf args cur in
      elim (Option-cases (get_elem? rf.log m)) [
        | inl past ↦ past_end rf args m ep (entered rf args) goes h some_entry past
        | inr (e, at) ↦ conflicting rf args m ep (entered rf args) goes h e nonneg at (other e at)
      ]
