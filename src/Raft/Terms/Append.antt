-- ===== src/Raft/Terms/Append.antt =====
-- `AppendEntries`, stage by stage: the term and the vote only advance.
use cs_350_boston_u.Base.{true, false, arith, Ensures, Ensures->>=, Ensures-returns}
use cs_350_boston_u.Raft.State.{
  Raft, LogEntry, Codec, AppendEntriesArgs, AppendEntriesReply, update_last_log_info,
}
use cs_350_boston_u.Raft.Persist.{persist}
use cs_350_boston_u.Raft.Append.{
  Stage, initialize_append_entries_response, check_term_with_leader, look_consistency, append_at,
  append_entries_if_log_matches, update_commit_index_and_notify, finish_append, match_log,
  compare_logs, append_entries,
}
use cs_350_boston_u.Raft.Terms.{Keeps, Keeps-trans, update_last_log_info-Keeps}

module _ {C : Type 0} where
  look_consistency-Keeps :
      (r : Raft C) (args : AppendEntriesArgs C) (reply : AppendEntriesReply)
      → Keeps r (look_consistency r args reply).0
  unfolding look_consistency
  look_consistency-Keeps r args reply = ground arith

  append_at-Keeps :
      (r : Raft C) (args : AppendEntriesArgs C) (reply : AppendEntriesReply) (prev : LogEntry C)
      → Ensures (λ (s : Stage C). Keeps r s.0) (append_at r args reply prev)
  unfolding append_at
  append_at-Keeps r args reply prev = ground arith

  matches-Keeps :
      (r : Raft C) (args : AppendEntriesArgs C) (reply : AppendEntriesReply)
      → Ensures (λ (s : Stage C). Keeps r s.0) (append_entries_if_log_matches r args reply)
  unfolding append_entries_if_log_matches
  matches-Keeps r args reply = ground arith

module _ {C : Type 0} ⦃codec : Codec C⦄ where
  update_commit-Keeps :
      (r : Raft C) (args : AppendEntriesArgs C)
      → Ensures (Keeps r) (update_commit_index_and_notify r args)
  unfolding update_commit_index_and_notify persist
  update_commit-Keeps r args = ground arith

  finish_append-Keeps :
      (r : Raft C) (args : AppendEntriesArgs C) (s : Stage C)
      → Keeps r s.0
      → Ensures (λ (o : Raft C × AppendEntriesReply). Keeps r o.0) (finish_append args s)
  unfolding finish_append
  finish_append-Keeps r args (s, reply, true) k = ground (arith, update_commit-Keeps s args)
  finish_append-Keeps r args (s, reply, false) k = k

  match_log-Keeps :
      (r : Raft C) (args : AppendEntriesArgs C) (s : Stage C)
      → Keeps r s.0
      → Ensures (λ (o : Raft C × AppendEntriesReply). Keeps r o.0) (match_log args s)
  unfolding match_log
  match_log-Keeps r args (s, reply, true) k =
      Ensures->>= _ (append_entries_if_log_matches s args reply) (finish_append args) λ t e.
        finish_append-Keeps r args t (
          Keeps-trans k
            (Ensures-returns (λ (u : Stage C). Keeps s u.0) e (matches-Keeps s args reply)))
  match_log-Keeps r args (s, reply, false) k = k

  compare_logs-Keeps :
      (r : Raft C) (args : AppendEntriesArgs C) (s : Stage C)
      → Keeps r s.0
      → Ensures (λ (o : Raft C × AppendEntriesReply). Keeps r o.0) (compare_logs args s)
  unfolding compare_logs
  compare_logs-Keeps r args (s, reply, true) k = match_log-Keeps r args _ (
      Keeps-trans (Keeps-trans k (update_last_log_info-Keeps s))
        (look_consistency-Keeps (update_last_log_info s) args reply))
  compare_logs-Keeps r args (s, reply, false) k = k

  check_term-Keeps :
      (r : Raft C) (args : AppendEntriesArgs C) (reply : AppendEntriesReply)
      → Keeps r (check_term_with_leader r args reply).0
  unfolding check_term_with_leader
  check_term-Keeps r args reply = ground arith

  opening-Keeps :
      (r : Raft C) → Keeps r (initialize_append_entries_response (update_last_log_info r)).0
  unfolding initialize_append_entries_response update_last_log_info
  opening-Keeps r = ground arith

  -- `AppendEntries` keeps the peer's identity, never lowers its term, never changes a vote that was
  -- cast in a term, and never makes it a leader.
  pub append_entries-Keeps :
      (r : Raft C) (args : AppendEntriesArgs C)
      → Ensures (λ (o : Raft C × AppendEntriesReply). Keeps r o.0) (append_entries r args)
  unfolding append_entries
  append_entries-Keeps r args =
      compare_logs-Keeps r args _ (Keeps-trans (opening-Keeps r) (check_term-Keeps _ args _))
