-- ===== src/Raft/Vote/Grant.antt =====
-- raft.go, `RequestVote`: who gets the vote of a peer.
use cs_350_boston_u.Base.{◌≡◌, ◌≢◌, ◌↔◌, ◌⊎◌, true, false, arith}
use cs_350_boston_u.Base.Int.{◌<ℤ◌, ◌≤ℤ◌, eq_of_parts}
use cs_350_boston_u.Raft.State.{
  Raft, Role, Codec, RequestVoteArgs, minus_one, last_index, last_term,
}
use cs_350_boston_u.Raft.Vote.{request_vote}

module _ {C : Type 0} where
  -- The candidate's log is at least as up to date as the peer's, as section 5.4.1 of the Raft paper
  -- has it: by the last term, then by the last index.
  abbrev pub UpToDate : Raft C → RequestVoteArgs → Type 0
  UpToDate r args =
      (last_term r.log <ℤ args.last_log_term)
      ⊎ ((last_term r.log ≡ args.last_log_term) × (last_index r.log ≤ℤ args.last_log_index))

  -- The request repeats the vote that the peer has cast in its term.
  abbrev pub Repeats : Raft C → RequestVoteArgs → Type 0
  Repeats r args =
      (args.term ≡ r.current_term) × (r.role ≢ Role.leader) × (r.voted_for ≡ args.candidate_id)

module _ {C : Type 0} ⦃codec : Codec C⦄ where
  -- A vote is granted exactly to a candidate of a newer term whose log is up to date, or again to the
  -- candidate that has the peer's vote in its current term.
  pub request_vote_granted_iff :
      (r : Raft C) (args : RequestVoteArgs)
      → ((request_vote r args).1.vote_granted ≡ true)
        ↔ (((r.current_term <ℤ args.term) × UpToDate r args) ⊎ Repeats r args)
  unfolding request_vote
  request_vote_granted_iff r args = ground (
    arith,
    eq_of_parts args.term r.current_term,
    eq_of_parts r.voted_for args.candidate_id,
    eq_of_parts (last_term r.log) args.last_log_term,
  )

  -- A peer that has no vote in its term yet refuses every real candidate of that term, and nothing
  -- of it changes.
  pub request_vote_same_term_refused :
      (r : Raft C) (args : RequestVoteArgs)
      → r.voted_for ≡ minus_one
      → args.term ≡ r.current_term
      → args.candidate_id ≢ minus_one
      → request_vote r args ≡ (r, record { term = r.current_term; vote_granted = false })
  unfolding request_vote
  request_vote_same_term_refused r args none_yet same real =
      ground (arith, eq_of_parts r.voted_for args.candidate_id)
