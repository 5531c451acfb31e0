-- ===== src/Raft/Tests/Ballot.antt =====
-- Witnesses on votes.
use cs_350_boston_u.Base.{◌≡◌, ◌↔◌, ◌⊎◌, ◌<◌, ◌+◌, refl, ltb, List, [], ◌∷◌, true, false, arith}
use cs_350_boston_u.Base.Int.{pos, ◌<ℤ◌}
use cs_350_boston_u.Raft.State.{RequestVoteArgs, RequestVoteReply, minus_one}
use cs_350_boston_u.Raft.Vote.{request_vote}
use cs_350_boston_u.Raft.Vote.Grant.{UpToDate, Repeats, request_vote_granted_iff}
use cs_350_boston_u.Raft.Election.{first_tally, collect_votes, see_reply}
use cs_350_boston_u.Raft.Election.Lost.{RealRequests, ask_all, see_reply-ask_all}
use cs_350_boston_u.Raft.Election.Exits.{granted, collect_votes-majority_iff}
use cs_350_boston_u.Raft.Tests.{test_codec, peer_at, short_log}

-- A candidate of term 2 whose log is as long as the peer's.
abbrev ask : RequestVoteArgs
ask = record { term = pos 2; candidate_id = pos 1; last_log_index = pos 1; last_log_term = pos 1 }

request_vote_granted_iff_example :
    ((request_vote (peer_at 0 1 short_log) ask).1.vote_granted ≡ true) ↔ (
      ((pos 1 <ℤ pos 2) × UpToDate (peer_at 0 1 short_log) ask)
      ⊎ Repeats (peer_at 0 1 short_log) ask)
request_vote_granted_iff_example = request_vote_granted_iff (peer_at 0 1 short_log) ask

-- A reply of term 3 to the request of term 2 that the peer sent in term 2.
abbrev newer_reply : RequestVoteReply
newer_reply = record { term = pos 3; vote_granted = false }

abbrev later_asks : List RequestVoteArgs
later_asks = record ask { term = pos 3 } ∷ record ask { term = pos 3; candidate_id = pos 2 } ∷ []

later_asks-RealRequests : RealRequests (pos 3) later_asks
later_asks-RealRequests = (refl, (λ e. cc), (refl, (λ e. cc), tt))

see_reply-ask_all_example :
    ((see_reply (peer_at 0 2 short_log) ask newer_reply).current_term ≡ pos 3)
    × ((see_reply (peer_at 0 2 short_log) ask newer_reply).voted_for ≡ minus_one)
    × (ask_all (see_reply (peer_at 0 2 short_log) ask newer_reply) later_asks
        ≡ (see_reply (peer_at 0 2 short_log) ask newer_reply, false ∷ false ∷ []))
see_reply-ask_all_example =
    see_reply-ask_all (peer_at 0 2 short_log) ask newer_reply later_asks (omega arith) (omega arith)
      later_asks-RealRequests

abbrev two_replies : List RequestVoteReply
two_replies =
    record { term = pos 2; vote_granted = true }
    ∷ record { term = pos 2; vote_granted = false }
    ∷ []

collect_votes-majority_iff_example :
    (ltb 1 (collect_votes (peer_at 1 2 short_log) ask first_tally two_replies).1.votes_granted
      ≡ true)
    ↔ (1 < 1 + granted two_replies)
collect_votes-majority_iff_example =
    collect_votes-majority_iff (peer_at 1 2 short_log) ask two_replies (omega arith) refl
