-- ===== src/Raft/Election/Lost.antt =====
-- raft.go, `election` and `RequestVote`: the vote of a peer that learns of a newer term from a reply.
use cs_350_boston_u.Base.{◌≡◌, refl, ◌≢◌, Bool, false, List, [], ◌∷◌, length, replicate, arith}
use cs_350_boston_u.Base.Int.{ℤ, ◌<ℤ◌}
use cs_350_boston_u.Raft.State.{
  Raft, Codec, RequestVoteArgs, RequestVoteReply, minus_one, become_follower, reset_election_timer,
}
use cs_350_boston_u.Raft.Persist.{persist}
use cs_350_boston_u.Raft.Vote.{request_vote}
use cs_350_boston_u.Raft.Vote.Grant.{request_vote_same_term_refused}
use cs_350_boston_u.Raft.Election.{see_reply}

-- Requests of one term, from candidates with a number that is not -1.
abbrev pub RealRequests : ℤ → List RequestVoteArgs → Type 0
RealRequests term [] = Unit
RealRequests term (ask ∷ asks) =
    (ask.term ≡ term) × (ask.candidate_id ≢ minus_one) × RealRequests term asks

module _ {C : Type 0} ⦃codec : Codec C⦄ where
  -- Requests for the vote, one after another: the peer then, and who got the vote.
  abbrev pub ask_all : Raft C → List RequestVoteArgs → Raft C × List Bool
  ask_all r [] = (r, [])
  ask_all r (ask ∷ asks) =
      let o = request_vote r ask in
      let rest = ask_all o.0 asks in (rest.0, o.1.vote_granted ∷ rest.1)

  ask_all_refused :
      (r : Raft C) (asks : List RequestVoteArgs)
      → r.voted_for ≡ minus_one
      → RealRequests r.current_term asks
      → ask_all r asks ≡ (r, replicate (length asks) false)
  ask_all_refused r [] none_yet real = refl
  ask_all_refused r (ask ∷ asks) none_yet real =
      let (same, named, others) = real in
      rw (request_vote_same_term_refused r ask none_yet same named)
        (rw (ask_all_refused r asks none_yet others) refl)

  see_reply-follows :
      (r : Raft C) (args : RequestVoteArgs) (reply : RequestVoteReply)
      → args.term <ℤ reply.term
      → r.current_term <ℤ reply.term
      → ((see_reply r args reply).current_term ≡ reply.term)
        × ((see_reply r args reply).voted_for ≡ minus_one)
  unfolding see_reply become_follower reset_election_timer persist
  see_reply-follows r args reply newer ahead = ground arith

  -- A candidate that hears in a reply of a term that is newer than its request's and its own takes it
  -- over without a vote, and then refuses its vote to every candidate of that term whose number is not
  -- -1, however many ask, and does not change.
  pub see_reply-ask_all :
      (r : Raft C) (args : RequestVoteArgs) (reply : RequestVoteReply) (asks : List RequestVoteArgs)
      → args.term <ℤ reply.term
      → r.current_term <ℤ reply.term
      → RealRequests reply.term asks
      → ((see_reply r args reply).current_term ≡ reply.term)
        × ((see_reply r args reply).voted_for ≡ minus_one)
        × (ask_all (see_reply r args reply) asks
            ≡ (see_reply r args reply, replicate (length asks) false))
  see_reply-ask_all r args reply asks newer ahead real =
      let (term, vote) = see_reply-follows r args reply newer ahead in
      (term, vote, ask_all_refused (see_reply r args reply) asks vote (rw term real))
