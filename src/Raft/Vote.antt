-- ===== src/Raft/Vote.antt =====
-- raft.go, `RequestVote`.
pub mod Grant
use cs_350_boston_u.Base.{Bool, true, false, ◌&&◌, if◌then◌else◌}
use cs_350_boston_u.Base.Int.{ℤ, ltb_ℤ, eqb_ℤ}
use cs_350_boston_u.Raft.State.{
  Raft, Role, Codec, RequestVoteArgs, RequestVoteReply, is_leader, minus_one, update_last_log_info,
  reset_election_timer,
}
use cs_350_boston_u.Raft.Persist.{persist}

abbrev vote_reply : ℤ → Bool → RequestVoteReply
vote_reply term granted = record { term = term; vote_granted = granted }

module _ {C : Type 0} where
  -- `case args.Term == rf.currentTerm`. A peer that has voted for another candidate returns, and a
  -- peer that has voted for nobody falls out of the switch: both leave the vote refused.
  same_term : Raft C → RequestVoteArgs → RequestVoteReply
  same_term rf args =
      if is_leader rf.role
      then vote_reply rf.current_term false
      else vote_reply rf.current_term (eqb_ℤ rf.voted_for args.candidate_id)

  -- Is the log of the peer, whose last entry is known, ahead of the candidate's?
  is_ahead : Raft C → RequestVoteArgs → Bool
  is_ahead rf args =
      if ltb_ℤ args.last_log_term rf.log_prev_term
      then true
      else eqb_ℤ rf.log_prev_term args.last_log_term && ltb_ℤ args.last_log_index rf.log_prev_index

  -- The peer as the `default` case first leaves it.
  enter_term : Raft C → ℤ → Raft C
  unfolding update_last_log_info
  enter_term rf term =
      update_last_log_info
        (record rf { current_term = term; voted_for = minus_one; role = Role.follower })

  cast_vote : Raft C → RequestVoteArgs → Raft C
  unfolding reset_election_timer
  cast_vote rf args =
      reset_election_timer (record rf {
        current_term = args.term;
        voted_for = args.candidate_id;
        role = Role.follower;
      })

module _ {C : Type 0} ⦃codec : Codec C⦄ where
  -- The `default` case: the candidate's term is newer.
  newer_term : Raft C → RequestVoteArgs → Raft C × RequestVoteReply
  unfolding is_ahead enter_term cast_vote
  newer_term rf args =
      let entered = enter_term rf args.term in
      if is_ahead entered args
      then (persist entered, vote_reply rf.current_term false)
      else (persist (cast_vote entered args), vote_reply rf.current_term true)

  unfoldable pub request_vote : Raft C → RequestVoteArgs → Raft C × RequestVoteReply
  unfolding same_term newer_term
  request_vote rf args =
      if ltb_ℤ args.term rf.current_term
      then (rf, vote_reply rf.current_term false)
      else if eqb_ℤ args.term rf.current_term
      then (rf, same_term rf args)
      else newer_term rf args
