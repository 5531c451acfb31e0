-- ===== src/Raft/Append/Stages.antt =====
-- `AppendEntries` one stage at a time, for a request that is not of an older term.
use cs_350_boston_u.Base.{
  ℕ, suc, ◌+◌, ◌-◌, ◌≤◌, ◌<◌, ◌≡◌, refl, ◌≢◌, ◌⊎◌, inl, inr, Bool, true, false, ◌&&◌, if◌then◌else◌,
  arith, List, ◌++◌, take, some, none, get_elem?, get_elem?_lt, get_elem?-some, length, Outcome,
  returns, ◌>>=◌, Bool-cases, Option-cases,
}
use cs_350_boston_u.Base.Int.{pos, ◌≤ℤ◌, ◌<ℤ◌, eqb_ℤ, ltb_ℤ, eq_of_parts}
use cs_350_boston_u.Base.Word.{add_int}
use cs_350_boston_u.Raft.State.{
  Raft, Role, LogEntry, Codec, AppendEntriesArgs, AppendEntriesReply, last_entry, last_term,
  last_index, minus_one, commit_capacity,
}
use cs_350_boston_u.Raft.Persist.{persist, clone_eq}
use cs_350_boston_u.Raft.Append.Conflict.{Stops, find_conflict_index-Stops}
use cs_350_boston_u.Raft.Append.{
  check_term_with_leader, look_consistency, append_entries_if_log_matches,
  update_commit_index_and_notify, append_entries, finish_append, compare_logs, conflict,
}

module _ {C : Type 0} where
  abbrev pub noted : Raft C → Raft C
  noted rf = record rf { log_prev_index = last_index rf.log; log_prev_term = last_term rf.log }

  -- The peer when it has taken over the term of the request.
  abbrev pub entered : Raft C → AppendEntriesArgs C → Raft C
  entered rf args =
      if ltb_ℤ rf.current_term args.term
      then record (noted rf) {
        election_resets = rf.election_resets + 1;
        role = Role.follower;
        voted_for = minus_one;
        current_term = args.term;
      }
      else record (noted rf) { election_resets = rf.election_resets + 1 }

  abbrev pub first_reply : Raft C → AppendEntriesReply
  first_reply rf = record {
    term = rf.current_term;
    success = true;
    new_term = last_term rf.log;
    new_index = last_index rf.log;
  }

  -- The log is ahead of the last entry that is sent.
  abbrev pub beyond : List (LogEntry C) → AppendEntriesArgs C → Bool
  beyond log args = elim (last_entry args.entries) [
    | none ↦ false
    | some e ↦
        if ltb_ℤ e.term (last_term log)
        then true
        else eqb_ℤ (last_term log) e.term
          && ltb_ℤ (add_int args.prev_log_index (pos (length args.entries))) (last_index log)
  ]

  -- What the request leaves of the peer, whatever becomes of the log.
  pub record Entered (rf : Raft C) (args : AppendEntriesArgs C) (r : Raft C) : Type 0 where
    pub log : r.log ≡ rf.log
    pub term : r.current_term ≡ args.term
    pub commit : r.commit_index ≡ rf.commit_index
    pub commits : r.commits ≡ rf.commits
    pub me : r.me ≡ rf.me
    pub vote :
        ((rf.current_term ≡ args.term) × (r.voted_for ≡ rf.voted_for))
        ⊎ ((rf.current_term <ℤ args.term) × (r.voted_for ≡ minus_one))
    pub saved : r.persister ≡ rf.persister

  pub entered-Entered :
      (rf : Raft C) (args : AppendEntriesArgs C)
      → rf.current_term ≤ℤ args.term
      → Entered rf args (entered rf args)
  entered-Entered rf args cur = ground (arith, eq_of_parts rf.current_term args.term)

  look_consistency_goes_on :
      (r : Raft C) (args : AppendEntriesArgs C) (reply : AppendEntriesReply)
      → beyond r.log args ≡ false
      → look_consistency (noted r) args reply ≡ (noted r, reply, true)
  unfolding look_consistency
  look_consistency_goes_on r args reply nb = elim (Option-cases (last_entry args.entries)) [
    | inl e ↦ ground arith
    | inr (x, e) ↦ ground arith
  ]

  pub last_index-pos :
      (log : List (LogEntry C)) → 0 < length log → last_index log ≡ pos (length log - 1)
  last_index-pos log lt =
      let (e, at) = get_elem?-some log (length log - 1) (omega arith) in rw (at, last_index)

  -- At an index where the peer has an entry of the term that the leader has there.
  pub matches_appends :
      (r : Raft C) (args : AppendEntriesArgs C) (reply : AppendEntriesReply) (m : ℕ)
      (e : LogEntry C)
      → args.prev_log_index ≡ pos m
      → get_elem? r.log m ≡ some e
      → e.term ≡ args.prev_log_term
      → append_entries_if_log_matches r args reply
        ≡ returns (record (noted r) { log = take (suc m) r.log ++ args.entries }, reply, true)
  unfolding append_entries_if_log_matches
  matches_appends r args reply m e ep at same =
      ground (arith, last_index-pos r.log, get_elem?_lt r.log m e at)

  -- Past the end of the log: the reply names the last entry.
  pub matches_short :
      (r : Raft C) (args : AppendEntriesArgs C) (reply : AppendEntriesReply) (m : ℕ)
      → args.prev_log_index ≡ pos m
      → 0 < length r.log
      → length r.log ≤ m
      → (e : LogEntry C) × (get_elem? r.log (length r.log - 1) ≡ some e)
        × (append_entries_if_log_matches r args reply
            ≡ returns (noted r, conflict reply (pos (length r.log - 1)) e.term, false))
  unfolding append_entries_if_log_matches
  matches_short r args reply m ep some_entry short =
      let (e, at) = get_elem?-some r.log (length r.log - 1) (omega arith) in
      (e, at, ground (arith, last_index-pos r.log))

  -- At an index where the peer has an entry of another term: the reply names where the search ends.
  pub matches_conflict :
      (r : Raft C) (args : AppendEntriesArgs C) (reply : AppendEntriesReply) (m : ℕ)
      (e : LogEntry C)
      → args.prev_log_index ≡ pos m
      → pos 0 ≤ℤ r.commit_index
      → get_elem? r.log m ≡ some e
      → e.term ≢ args.prev_log_term
      → (k : ℕ) × (s : Stops r.log r.commit_index e.term m k) × (append_entries_if_log_matches r
            args reply
          ≡ returns (noted r, conflict reply (pos k) s.found.term, false))
  unfolding append_entries_if_log_matches
  matches_conflict r args reply m e ep nonneg at other =
      let (k, run, s) = find_conflict_index-Stops (noted r) m e nonneg at in
      (
        k,
        s,
        ground (
          arith,
          last_index-pos r.log,
          get_elem?_lt r.log m e at,
          eq_of_parts e.term args.prev_log_term,
          s.at,
          run,
        ),
      )

  -- From the look at the log on, if the log is not ahead of the request.
  abbrev pub after_match :
      Codec C
      → AppendEntriesArgs C
      → Outcome (Raft C × AppendEntriesReply × Bool)
      → Outcome (Raft C × AppendEntriesReply)
  after_match codec args o = o >>= finish_append ⦃codec = codec⦄ args

module _ {C : Type 0} ⦃codec : Codec C⦄ where
  pub append_entries_enters :
      (rf : Raft C) (args : AppendEntriesArgs C)
      → rf.current_term ≤ℤ args.term
      → append_entries rf args ≡ compare_logs args (entered rf args, first_reply rf, true)
  unfolding append_entries check_term_with_leader
  append_entries_enters rf args cur = ground (arith)

  pub compare_logs_goes_on :
      (r : Raft C) (args : AppendEntriesArgs C) (reply : AppendEntriesReply)
      → beyond r.log args ≡ false
      → compare_logs args (r, reply, true)
        ≡ after_match codec args (append_entries_if_log_matches (noted r) args reply)
  unfolding compare_logs
  compare_logs_goes_on r args reply nb = rw (look_consistency_goes_on r args reply nb)

  -- An accepted request: the commit index moves up as far as the log goes, and the state is saved.
  pub record Finished (r : Raft C) (args : AppendEntriesArgs C) (r' : Raft C) : Type 0 where
    pub log : r'.log ≡ r.log
    pub term : r'.current_term ≡ r.current_term
    pub raised :
        (r'.commit_index ≡ r.commit_index)
        ⊎ ((r.commit_index <ℤ args.leader_commit)
            × (r'.commit_index ≤ℤ args.leader_commit)
            × (r'.commit_index ≤ℤ pos (length r.log)))
    pub vote : r'.voted_for ≡ r.voted_for
    pub saved :
        r'.persister.raftstate
        ≡ codec.encode (record { term = r'.current_term; voted_for = r'.voted_for; log = r'.log })

  pub finish_append_ends :
      (r : Raft C) (args : AppendEntriesArgs C) (reply : AppendEntriesReply)
      → r.commits < commit_capacity
      → (r' : Raft C) × (finish_append args (r, reply, true) ≡ returns (r', reply))
        × Finished r args r'
  unfolding finish_append update_commit_index_and_notify persist
  finish_append_ends r args reply room =
      elim (Bool-cases (ltb_ℤ r.commit_index args.leader_commit)) [
        | inl e ↦ (
          persist (record r {
            commit_index =
                if ltb_ℤ (pos (length r.log)) args.leader_commit
                then pos (length r.log)
                else args.leader_commit;
            commits = r.commits + 1;
          }),
          ground arith,
          record {
            log = refl;
            term = refl;
            vote = refl;
            raised = inr (ground arith, ground arith, ground arith);
            saved = clone_eq _;
          },
        )
        | inr e ↦ (
          persist r,
          ground arith,
          record { log = refl; term = refl; vote = refl; raised = inl refl; saved = clone_eq _ },
        )
      ]
