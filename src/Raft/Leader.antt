-- ===== src/Raft/Leader.antt =====
-- raft.go, what a leader does: `Start`, one round of `heartbeat`, and the commit of entries.
pub mod Commit
use cs_350_boston_u.Base.{
  ℕ, zero, suc, ◌+◌, ◌/◌, Bool, true, false, ◌&&◌, not, List, [], ◌∷◌, ◌++◌, drop, set, length,
  get_elem?, Option, none, some, ltb, leb, if◌then◌else◌, Outcome, returns, panics, ◌>>=◌,
}
use cs_350_boston_u.Base.Int.{ℤ, pos, negsuc, pos_part, ◌-ℤ◌, ltb_ℤ, leb_ℤ, eqb_ℤ}
use cs_350_boston_u.Base.Word.{add_int, sub_int}
use cs_350_boston_u.Raft.State.{
  Raft, Role, is_leader, LogEntry, Codec, AppendEntriesArgs, AppendEntriesReply, minus_one, log_at,
  last_entry, reset_election_timer, become_follower, signal_commit,
}
use cs_350_boston_u.Raft.Persist.{persist}

-- A write to `nextIndex[i]` or `matchIndex[i]`.
abbrev pub set_at : List ℤ → ℕ → ℤ → Outcome (List ℤ)
set_at xs i v = if ltb i (length xs) then returns (set xs i v) else panics

-- `rf.log[i:]`
abbrev pub slice_from : {C : Type 0} → List (LogEntry C) → ℤ → Outcome (List (LogEntry C))
slice_from log (pos i) = if leb i (length log) then returns (drop i log) else panics
slice_from log (negsuc i) = panics

-- The loop of `isMajorityReplicated`, on the entries that are left of `matchIndex`.
unfoldable pub count_up : List ℤ → ℤ → ℕ → ℕ → Bool
count_up [] index majority count = false
count_up (m ∷ ms) index majority count =
    let hit = count_up ms index majority (count + 1) in
    let miss = count_up ms index majority count in
    if leb_ℤ index m then (if ltb majority (count + 1) then true else hit) else miss

module _ {C : Type 0} where
  -- `GetState`
  unfoldable pub get_state : Raft C → ℤ × Bool
  get_state rf = (rf.current_term, is_leader rf.role)

  unfoldable pub is_majority_replicated : Raft C → ℤ → Bool
  unfolding count_up
  is_majority_replicated rf index = count_up rf.match_index index (rf.num_peers / 2) 0

  -- The loop of `updateCommitIndex` from index `i`, with the rounds left up to `len(rf.log)`. It
  -- returns the peer and `goCommit`.
  unfoldable pub commit_loop : ℕ → ℤ → Raft C → Bool → Raft C × Bool
  commit_loop zero i rf go_commit = (rf, go_commit)
  commit_loop (suc rounds) i rf go_commit =
      let next = commit_loop rounds (add_int i (pos 1)) (record rf { commit_index = i }) true in
      if is_majority_replicated rf i then next else (rf, go_commit)

  -- How often the loop runs at most: from `commitIndex + 1` to `len(rf.log)`.
  abbrev pub rounds_left : Raft C → ℕ
  rounds_left rf = pos_part (pos (length rf.log) -ℤ rf.commit_index)

  unfoldable pub update_commit_index : Raft C → Outcome (Raft C)
  unfolding commit_loop signal_commit
  update_commit_index rf =
      let (rf', go_commit) =
        commit_loop (rounds_left rf) (add_int rf.commit_index (pos 1)) rf false in
      if go_commit then signal_commit rf' else returns rf'

  unfoldable pub attempt_commit_logs : Raft C → AppendEntriesArgs C → Outcome (Raft C)
  attempt_commit_logs rf args = elim (last_entry args.entries) [
    | none ↦ returns rf
    | some e ↦ if eqb_ℤ e.term rf.current_term then update_commit_index rf else returns rf
  ]

  unfoldable pub update_success_indexes : Raft C → ℕ → ℤ → ℕ → Outcome (Raft C)
  update_success_indexes rf server next entry_len = do
    next_index ← set_at rf.next_index server (add_int next (pos entry_len))
    match_index ← set_at rf.match_index server (add_int (sub_int next (pos 1)) (pos entry_len))
    returns (record rf { next_index = next_index; match_index = match_index })

  -- The branch for a reply that reports success.
  unfoldable pub on_success : Raft C → AppendEntriesArgs C → ℕ → ℤ → Outcome (Raft C × ℤ × Bool)
  on_success rf args server next = do
    rf1 ← update_success_indexes rf server next (length args.entries)
    rf2 ← attempt_commit_logs rf1 args
    returns (rf2, next, false)

  unfoldable pub adjust_next_based_on_reply : Raft C → AppendEntriesReply → Outcome ℤ
  adjust_next_based_on_reply rf reply = do
    e ← log_at rf.log reply.new_index
    returns
        (if eqb_ℤ e.term reply.new_term then add_int reply.new_index (pos 1) else reply.new_index)

  unfoldable pub initiate_append_entries : Raft C → ℤ → Outcome (AppendEntriesArgs C)
  initiate_append_entries rf next = do
    entries ← slice_from rf.log next
    prev ← log_at rf.log (sub_int next (pos 1))
    returns (record {
      term = rf.current_term;
      leader_id = pos rf.me;
      prev_log_index = sub_int next (pos 1);
      prev_log_term = prev.term;
      entries = entries;
      leader_commit = rf.commit_index;
    })

module _ {C : Type 0} ⦃codec : Codec C⦄ where
  -- A reply with a term that is newer than the one the request was sent in.
  unfoldable pub step_down : Raft C → ℤ → Raft C
  unfolding become_follower reset_election_timer
  step_down rf term =
      if ltb_ℤ rf.current_term term
      then persist (reset_election_timer (become_follower term rf))
      else rf

  -- The peer, the new `*next`, and whether `heartbeat` goes on.
  unfoldable pub handle_append_entries_response :
      Raft C → AppendEntriesReply → AppendEntriesArgs C → ℕ → ℤ → ℤ → Outcome (Raft C × ℤ × Bool)
  unfolding on_success
  handle_append_entries_response rf reply args server next term =
      if not reply.success && eqb_ℤ reply.term minus_one
      then returns (rf, next, false)
      else if ltb_ℤ term reply.term
      then returns (step_down rf reply.term, next, false)
      else if reply.success
      then on_success rf args server next
      else (do next' ← adjust_next_based_on_reply rf reply; returns (rf, next', true))

  -- The leader's part of `Start`.
  unfoldable pub start_as_leader : Raft C → C → Outcome (Raft C × ℤ × ℤ × Bool)
  start_as_leader rf command = do
    let index = pos (length rf.log)
    let entry : LogEntry C = record { command = command; term = rf.current_term }
    match_index ← set_at rf.match_index rf.me index
    returns (
      persist (record rf { log = rf.log ++ entry ∷ []; match_index = match_index }),
      index,
      rf.current_term,
      true,
    )

  -- `Start`, with the index, the term and whether the peer leads.
  unfoldable pub start : Raft C → C → Outcome (Raft C × ℤ × ℤ × Bool)
  unfolding start_as_leader
  start rf command =
      if is_leader rf.role
      then start_as_leader rf command
      else returns (rf, pos (length rf.log), rf.current_term, false)
