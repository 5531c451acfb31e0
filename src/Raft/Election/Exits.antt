-- ===== src/Raft/Election/Exits.antt =====
-- raft.go, `election`: the early exits from the count of votes.
use cs_350_boston_u.Base.{
  ℕ, ◌+◌, ◌≤◌, ◌<◌, ◌≡◌, ◌↔◌, true, arith, List, [], ◌∷◌, length, ltb, if◌then◌else◌, Bool-cases,
  inl, inr,
}
use cs_350_boston_u.Raft.State.{
  Raft, Codec, RequestVoteArgs, RequestVoteReply, become_follower, reset_election_timer,
}
use cs_350_boston_u.Raft.Persist.{persist}
use cs_350_boston_u.Raft.Election.{
  Tally, first_tally, add_reply, is_decided, majority, see_reply, collect_votes,
}

-- How many replies grant the vote.
abbrev pub granted : List RequestVoteReply → ℕ
granted [] = 0
granted (reply ∷ replies) = (if reply.vote_granted then 1 else 0) + granted replies

granted_le : (replies : List RequestVoteReply) → granted replies ≤ length replies
granted_le [] = omega arith
granted_le (reply ∷ replies) = ground (arith, granted_le replies)

module _ {C : Type 0} ⦃codec : Codec C⦄ where
  see_reply-num_peers :
      (r : Raft C) (args : RequestVoteArgs) (reply : RequestVoteReply)
      → (see_reply r args reply).num_peers ≡ r.num_peers
  unfolding see_reply persist become_follower reset_election_timer
  see_reply-num_peers r args reply = ground arith

  collect_votes-count :
      (r : Raft C) (args : RequestVoteArgs) (tally : Tally) (replies : List RequestVoteReply)
      → tally.votes_granted ≤ tally.vote_count
      → tally.vote_count + length replies ≤ r.num_peers
      → tally.votes_granted ≤ majority r
      → (ltb (majority r) (collect_votes r args tally replies).1.votes_granted ≡ true)
        ↔ (majority r < tally.votes_granted + granted replies)
  unfolding collect_votes
  collect_votes-count r args tally [] le fits short = ground arith
  collect_votes-count r args tally (reply ∷ replies) le fits short =
      let r' = see_reply r args reply in
      let tally' = add_reply tally reply in
      let peers : r'.num_peers ≡ r.num_peers = see_reply-num_peers r args reply in
      let bound = granted_le replies in
      elim (Bool-cases (is_decided tally' (majority r'))) [
        | inl done ↦ ground arith
        | inr going ↦
            let ih =
              collect_votes-count r' args tally' replies (ground arith) (ground arith)
                (ground arith) in
            ground arith
      ]

  -- With one reply for each other peer, of at least two peers, the election counts to a majority
  -- exactly when the votes granted by all the replies and the peer's own make one: the exits from
  -- the loop never change the outcome.
  pub collect_votes-majority_iff :
      (r : Raft C) (args : RequestVoteArgs) (replies : List RequestVoteReply)
      → 0 < majority r
      → length replies + 1 ≡ r.num_peers
      → (ltb (majority r) (collect_votes r args first_tally replies).1.votes_granted ≡ true)
        ↔ (majority r < 1 + granted replies)
  collect_votes-majority_iff r args replies some_peer all =
      collect_votes-count r args first_tally replies (omega arith) (omega arith) (omega arith)
