-- ===== src/Raft/Election.antt =====
-- raft.go, `election`: the three critical sections and the count of votes between them.
pub mod Exits
pub mod Lost
use cs_350_boston_u.Base.{
  ℕ, zero, suc, ◌+◌, ◌-◌, ◌/◌, Bool, true, false, ◌&&◌, not, List, [], ◌∷◌, replicate, length, ltb,
  ◌==◌, if◌then◌else◌, Outcome, returns, ◌>>=◌,
}
use cs_350_boston_u.Base.Int.{ℤ, pos, ltb_ℤ, eqb_ℤ}
use cs_350_boston_u.Base.Word.{add_int}
use cs_350_boston_u.Raft.State.{
  Raft, Role, is_leader, is_candidate, Codec, RequestVoteArgs, RequestVoteReply,
  update_last_log_info, reset_election_timer, become_follower,
}
use cs_350_boston_u.Raft.Persist.{persist}
use cs_350_boston_u.Raft.Leader.{set_at}

-- The counters of `election`.
pub record Tally : Type 0 where
  pub vote_count : ℕ
  pub votes_granted : ℕ

-- A reply is lost when `Call` fails: the reply keeps its zero values.
abbrev pub no_reply : RequestVoteReply
no_reply = record { term = pos 0; vote_granted = false }

abbrev pub first_tally : Tally
first_tally = record { vote_count = 1; votes_granted = 1 }

abbrev pub add_reply : Tally → RequestVoteReply → Tally
add_reply t reply = record {
  vote_count = t.vote_count + 1;
  votes_granted = if reply.vote_granted then t.votes_granted + 1 else t.votes_granted;
}

-- The two early exits from the loop over the peers.
abbrev pub is_decided : Tally → ℕ → Bool
is_decided t majority =
    if ltb majority t.votes_granted then true else ltb majority (t.vote_count - t.votes_granted)

module _ {C : Type 0} where
  unfoldable pub should_start_election : Raft C → Bool
  should_start_election rf = not (is_leader rf.role)

  abbrev pub majority : Raft C → ℕ
  majority rf = rf.num_peers / 2

  -- The first critical section, with the arguments of the requests.
  unfoldable pub begin_election : Raft C → Raft C × RequestVoteArgs
  unfolding update_last_log_info reset_election_timer
  begin_election rf =
      let rf' = update_last_log_info (record (reset_election_timer rf) {
        role = Role.candidate;
        voted_for = pos rf.me;
        current_term = add_int rf.current_term (pos 1);
      }) in
      (
        rf',
        record {
          term = rf'.current_term;
          candidate_id = pos rf'.me;
          last_log_index = rf'.log_prev_index;
          last_log_term = rf'.log_prev_term;
        },
      )

  -- The last critical section, when the votes are in.
  unfoldable pub take_office : Raft C → RequestVoteArgs → Outcome (Raft C)
  unfolding update_last_log_info
  take_office rf0 args =
      let rf = update_last_log_info rf0 in
      if eqb_ℤ rf.current_term args.term && is_candidate rf.role
      then (do
        match_index ← set_at (replicate rf.num_peers (pos 0)) rf.me rf.log_prev_index
        returns (record rf {
          role = Role.leader;
          next_index = replicate rf.num_peers (add_int rf.log_prev_index (pos 1));
          match_index = match_index;
        }))
      else returns rf

  unfoldable pub end_election : Raft C → RequestVoteArgs → Tally → Outcome (Raft C)
  unfolding take_office
  end_election rf args tally =
      if ltb (majority rf) tally.votes_granted then take_office rf args else returns rf

module _ {C : Type 0} ⦃codec : Codec C⦄ where
  -- What the loop does to the peer when a reply is in.
  unfoldable pub see_reply : Raft C → RequestVoteArgs → RequestVoteReply → Raft C
  unfolding become_follower reset_election_timer
  see_reply rf args reply =
      if ltb_ℤ args.term reply.term
      then (if ltb_ℤ rf.current_term reply.term
          then persist (reset_election_timer (become_follower reply.term rf))
          else rf)
      else rf

  -- The loop, over the replies of the other peers in their order.
  unfoldable pub collect_votes :
      Raft C → RequestVoteArgs → Tally → List RequestVoteReply → Raft C × Tally
  unfolding see_reply
  collect_votes rf args tally [] = (rf, tally)
  collect_votes rf args tally (reply ∷ replies) =
      let rf' = see_reply rf args reply in
      let tally' = add_reply tally reply in
      let rest = collect_votes rf' args tally' replies in
      if is_decided tally' (majority rf') then (rf', tally') else rest

  -- `election`, when nothing else changes the peer in the meantime.
  unfoldable pub election : Raft C → List RequestVoteReply → Outcome (Raft C)
  unfolding collect_votes end_election begin_election
  election rf replies =
      let (rf1, args) = begin_election rf in
      let (rf2, tally) = collect_votes rf1 args first_tally replies in end_election rf2 args tally
