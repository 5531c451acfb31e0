-- ===== src/Raft/Terms.antt =====
-- Terms and votes only advance: what every method of a peer does to `currentTerm`, `votedFor` and
-- `role`, short of winning an election.
pub mod Append
pub mod Leader
use cs_350_boston_u.Base.{ℕ, ◌≡◌, ◌⊎◌, true, arith}
use cs_350_boston_u.Base.Int.{ℤ, ◌<ℤ◌, eq_of_parts}
use cs_350_boston_u.Raft.State.{Raft, Role, Codec, RequestVoteArgs, minus_one, update_last_log_info}
use cs_350_boston_u.Raft.Persist.{persist}
use cs_350_boston_u.Raft.Vote.{request_vote}

module _ {C : Type 0} where
  -- The term grows, or it stays and a vote that was cast in it stays too.
  abbrev pub Advances : Raft C → Raft C → Type 0
  Advances r r' =
      (r.current_term <ℤ r'.current_term)
      ⊎ ((r.current_term ≡ r'.current_term)
          × ((r.voted_for ≡ r'.voted_for) ⊎ (r.voted_for ≡ minus_one)))

  pub record Keeps (r r' : Raft C) : Type 0 where
    pub same_me : r'.me ≡ r.me
    pub same_peers : r'.num_peers ≡ r.num_peers
    pub advances : Advances r r'
    pub in_office :
        r'.role ≡ Role.leader → (r.role ≡ Role.leader) × (r'.current_term ≡ r.current_term)

  pub Keeps-refl : {r : Raft C} → Keeps r r
  Keeps-refl = ground arith

  pub Keeps-trans : {r s t : Raft C} → Keeps r s → Keeps s t → Keeps r t
  Keeps-trans k l = ground (arith)

  pub update_last_log_info-Keeps : (r : Raft C) → Keeps r (update_last_log_info r)
  unfolding update_last_log_info
  update_last_log_info-Keeps r = ground arith

module _ {C : Type 0} ⦃codec : Codec C⦄ where
  pub request_vote-Keeps : (r : Raft C) (args : RequestVoteArgs) → Keeps r (request_vote r args).0
  unfolding request_vote persist
  request_vote-Keeps r args = ground arith

  -- A vote that is granted is for the term and the candidate of the request.
  pub request_vote-granted :
      (r : Raft C) (args : RequestVoteArgs)
      → (request_vote r args).1.vote_granted ≡ true
      → ((request_vote r args).0.current_term ≡ args.term)
        × ((request_vote r args).0.voted_for ≡ args.candidate_id)
  unfolding request_vote persist
  request_vote-granted r args h =
      ground
        (arith, eq_of_parts args.term r.current_term, eq_of_parts r.voted_for args.candidate_id)
