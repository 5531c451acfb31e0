-- ===== src/Raft/Replication/Leader.antt =====
-- The leader's half of a round.
use cs_350_boston_u.Base.{
  ℕ, zero, suc, ◌+◌, ◌^◌, ◌≤◌, ◌<◌, ◌≡◌, refl, inl, inr, Bool, true, false, arith, drop, some,
  get_elem?, length, returns, Bool-cases, Option-cases, set, if◌then◌else◌,
}
use cs_350_boston_u.Base.Int.{ℤ, pos, eqb_ℤ}
use cs_350_boston_u.Base.Word.{add_int, sub_int, add_int-pos, sub_int-pos}
use cs_350_boston_u.Raft.State.{
  Raft, LogEntry, AppendEntriesArgs, AppendEntriesReply, commit_capacity, last_entry,
}
use cs_350_boston_u.Raft.Leader.{
  initiate_append_entries, adjust_next_based_on_reply, update_success_indexes, attempt_commit_logs,
  update_commit_index, commit_loop, on_success, rounds_left,
}

module _ {C : Type 0} where
  -- What a leader sends from `next = m + 1` on.
  abbrev pub request : Raft C → ℕ → LogEntry C → AppendEntriesArgs C
  request l m e = record {
    term = l.current_term;
    leader_id = pos l.me;
    prev_log_index = pos m;
    prev_log_term = e.term;
    entries = drop (suc m) l.log;
    leader_commit = l.commit_index;
  }

  pub initiate-request :
      (l : Raft C) (m : ℕ) (e : LogEntry C)
      → get_elem? l.log m ≡ some e
      → suc m ≤ length l.log
      → length l.log < 2 ^ 63
      → initiate_append_entries l (pos (suc m)) ≡ returns (request l m e)
  unfolding initiate_append_entries
  initiate-request l m e at le fits = ground (arith, sub_int-pos (suc m) 1)

  pub adjust_back :
      (l : Raft C) (reply : AppendEntriesReply) (k : ℕ) (e : LogEntry C)
      → reply.new_index ≡ pos k
      → get_elem? l.log k ≡ some e
      → suc k < 2 ^ 63
      → adjust_next_based_on_reply l reply
        ≡ returns (if eqb_ℤ e.term reply.new_term then pos (suc k) else pos k)
  unfolding adjust_next_based_on_reply
  adjust_back l reply k e ek at fits = ground (arith, add_int-pos k 1)

  -- The commit leaves the log and the signals in the channel alone.
  commit_loop-log :
      (n : ℕ) (i : ℤ) (r : Raft C) (go : Bool)
      → ((commit_loop n i r go).0.log ≡ r.log) × ((commit_loop n i r go).0.commits ≡ r.commits)
  unfolding commit_loop
  commit_loop-log zero i r go = (refl, refl)
  commit_loop-log (suc n) i r go =
      ground (arith, commit_loop-log n (add_int i (pos 1)) (record r { commit_index = i }) true)

  pub update_commit_index_ends :
      (r : Raft C)
      → r.commits < commit_capacity
      → (r' : Raft C) × (update_commit_index r ≡ returns r') × (r'.log ≡ r.log)
  unfolding update_commit_index
  update_commit_index_ends r room =
      let loop = commit_loop (rounds_left r) (add_int r.commit_index (pos 1)) r false in
      let (log, commits) =
        commit_loop-log (rounds_left r) (add_int r.commit_index (pos 1)) r false in
      elim (Bool-cases loop.1) [
        | inl go ↦ (record (loop.0) { commits = loop.0.commits + 1 }, ground arith, log)
        | inr stay ↦ (loop.0, ground arith, log)
      ]

  attempt_commit_logs_ends :
      (r : Raft C) (args : AppendEntriesArgs C)
      → r.commits < commit_capacity
      → (r' : Raft C) × (attempt_commit_logs r args ≡ returns r') × (r'.log ≡ r.log)
  unfolding attempt_commit_logs
  attempt_commit_logs_ends r args room =
      let (r', run, log) = update_commit_index_ends r room in
      elim (Option-cases (last_entry args.entries)) [
        | inl e ↦ (r, ground arith, refl)
        | inr (x, e) ↦ elim (Bool-cases (eqb_ℤ x.term r.current_term)) [
          | inl same ↦ (r', ground arith, log)
          | inr other ↦ (r, ground arith, refl)
        ]
      ]

  pub on_success_ends :
      (l : Raft C) (args : AppendEntriesArgs C) (server : ℕ) (next : ℤ)
      → l.commits < commit_capacity
      → server < length l.next_index
      → server < length l.match_index
      → (l' : Raft C) × (on_success l args server next ≡ returns (l', next, false))
        × (l'.log ≡ l.log)
  unfolding on_success update_success_indexes
  on_success_ends l args server next room ln lm =
      let next_index = set l.next_index server (add_int next (pos (length args.entries))) in
      let match_index =
        set l.match_index server (add_int (sub_int next (pos 1)) (pos (length args.entries))) in
      let l1 = record l { next_index = next_index; match_index = match_index } in
      let (l', run, log) = attempt_commit_logs_ends l1 args room in (l', ground (arith, run), log)
