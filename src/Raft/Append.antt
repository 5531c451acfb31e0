-- ===== src/Raft/Append.antt =====
-- raft.go, `AppendEntries` and the methods that it calls, in their order. The reply is filled in on
-- the way, so each of them returns the peer, the reply and whether the handler goes on.
pub mod Conflict
pub mod Stages
pub mod Cases
use cs_350_boston_u.Base.{
  ℕ, zero, suc, Bool, true, false, ◌&&◌, ◌||◌, List, [], ◌∷◌, ◌++◌, take, length, Option, none,
  some, if◌then◌else◌, Outcome, returns, panics, ◌>>=◌,
}
use cs_350_boston_u.Base.Int.{ℤ, pos, negsuc, ltb_ℤ, eqb_ℤ}
use cs_350_boston_u.Base.Word.{add_int}
use cs_350_boston_u.Raft.State.{
  Raft, LogEntry, Codec, AppendEntriesArgs, AppendEntriesReply, minus_one, log_at, last_term,
  last_entry, update_last_log_info, reset_election_timer, become_follower, signal_commit,
}
use cs_350_boston_u.Raft.Persist.{persist}

-- The peer, the reply so far, and whether the caller goes on.
abbrev pub Stage : Type 0 → Type 0
Stage C = Raft C × AppendEntriesReply × Bool

abbrev conflict : AppendEntriesReply → ℤ → ℤ → AppendEntriesReply
conflict reply index term = record reply { success = false; new_index = index; new_term = term }

module _ {C : Type 0} where
  unfoldable pub initialize_append_entries_response : Raft C → Raft C × AppendEntriesReply
  unfolding reset_election_timer
  initialize_append_entries_response rf = (
    reset_election_timer rf,
    record {
      term = rf.current_term;
      success = true;
      new_term = rf.log_prev_term;
      new_index = rf.log_prev_index;
    },
  )

  unfoldable pub check_term_with_leader :
      Raft C → AppendEntriesArgs C → AppendEntriesReply → Stage C
  unfolding become_follower
  check_term_with_leader rf args reply =
      if ltb_ℤ rf.current_term args.term
      then (become_follower args.term rf, reply, true)
      else if ltb_ℤ args.term rf.current_term
      then (rf, record reply { success = false }, false)
      else (rf, reply, true)

  -- The peer's log is ahead of the entries that are sent.
  unfoldable pub is_beyond : Raft C → AppendEntriesArgs C → ℤ → Bool
  is_beyond rf args last_entry_term =
      if ltb_ℤ last_entry_term rf.log_prev_term
      then true
      else eqb_ℤ rf.log_prev_term last_entry_term
        && ltb_ℤ (add_int args.prev_log_index (pos (length args.entries))) rf.log_prev_index

  unfoldable pub look_consistency : Raft C → AppendEntriesArgs C → AppendEntriesReply → Stage C
  unfolding is_beyond
  look_consistency rf args reply = elim (last_entry args.entries) [
    | none ↦ (rf, reply, true)
    | some e ↦
        if is_beyond rf args e.term
        then (rf, record reply { success = false; term = minus_one }, false)
        else (rf, reply, true)
  ]

  -- The loop of `findConflictIndex`, below the index where it stands.
  unfoldable pub scan_down : List (LogEntry C) → ℤ → ℤ → ℕ → Outcome ℤ
  scan_down log commit term zero =
      if ltb_ℤ commit (pos 0)
      then (do
        e ← log_at log (pos 0)
        if eqb_ℤ e.term term
            then (if ltb_ℤ commit minus_one then panics else returns minus_one)
            else returns (pos 0))
      else returns (pos 0)
  scan_down log commit term (suc i) =
      let rest = scan_down log commit term i in
      if ltb_ℤ commit (pos (suc i))
      then (do
        e ← log_at log (pos (suc i))
        if eqb_ℤ e.term term then rest else returns (pos (suc i)))
      else returns (pos (suc i))

  unfoldable pub find_conflict_index : Raft C → ℤ → Outcome ℤ
  unfolding scan_down
  find_conflict_index rf (negsuc i) =
      if ltb_ℤ rf.commit_index (negsuc i) then panics else returns (negsuc i)
  find_conflict_index rf (pos i) =
      if ltb_ℤ rf.commit_index (pos i)
      then (do start ← log_at rf.log (pos i); scan_down rf.log rf.commit_index start.term i)
      else returns (pos i)

  -- `rf.log[:i+1]`
  abbrev pub slice_to : List (LogEntry C) → ℤ → List (LogEntry C)
  slice_to log (pos i) = take (suc i) log
  slice_to log (negsuc i) = []

  -- The case in which the peer has an entry at `PrevLogIndex`.
  unfoldable pub append_at :
      Raft C → AppendEntriesArgs C → AppendEntriesReply → LogEntry C → Outcome (Stage C)
  append_at rf args reply prev =
      if eqb_ℤ prev.term args.prev_log_term
      then returns
          (record rf { log = slice_to rf.log args.prev_log_index ++ args.entries }, reply, true)
      else (do
        index ← find_conflict_index rf args.prev_log_index
        e ← log_at rf.log index
        returns (rf, conflict reply index e.term, false))

  unfoldable pub append_entries_if_log_matches :
      Raft C → AppendEntriesArgs C → AppendEntriesReply → Outcome (Stage C)
  unfolding append_at update_last_log_info
  append_entries_if_log_matches rf0 args reply =
      let rf = update_last_log_info rf0 in
      if ltb_ℤ rf.log_prev_index args.prev_log_index
      then (do
        e ← log_at rf.log rf.log_prev_index
        returns (rf, conflict reply rf.log_prev_index e.term, false))
      else (do prev ← log_at rf.log args.prev_log_index; append_at rf args reply prev)

module _ {C : Type 0} ⦃codec : Codec C⦄ where
  unfoldable pub update_commit_index_and_notify : Raft C → AppendEntriesArgs C → Outcome (Raft C)
  unfolding signal_commit
  update_commit_index_and_notify rf args =
      if ltb_ℤ rf.commit_index args.leader_commit
      then (do
        let len = pos (length rf.log)
        let new_commit_index = if ltb_ℤ len args.leader_commit then len else args.leader_commit
        rf' ← signal_commit (record rf { commit_index = new_commit_index })
        returns (persist rf'))
      else returns (persist rf)

  -- The end of the handler, once the stage before it has let it go on.
  unfoldable pub finish_append :
      AppendEntriesArgs C → Stage C → Outcome (Raft C × AppendEntriesReply)
  finish_append args (rf, reply, true) = do
    rf' ← update_commit_index_and_notify rf args
    returns (rf', reply)
  finish_append args (rf, reply, false) = returns (rf, reply)

  unfoldable pub match_log : AppendEntriesArgs C → Stage C → Outcome (Raft C × AppendEntriesReply)
  unfolding finish_append
  match_log args (rf, reply, true) = do
    stage ← append_entries_if_log_matches rf args reply
    finish_append args stage
  match_log args (rf, reply, false) = returns (rf, reply)

  unfoldable pub compare_logs :
      AppendEntriesArgs C → Stage C → Outcome (Raft C × AppendEntriesReply)
  unfolding match_log update_last_log_info
  compare_logs args (rf, reply, true) =
      match_log args (look_consistency (update_last_log_info rf) args reply)
  compare_logs args (rf, reply, false) = returns (rf, reply)

  unfoldable pub append_entries :
      Raft C → AppendEntriesArgs C → Outcome (Raft C × AppendEntriesReply)
  unfolding compare_logs initialize_append_entries_response
  append_entries rf args =
      let (rf', reply) = initialize_append_entries_response (update_last_log_info rf) in
      compare_logs args (check_term_with_leader rf' args reply)
