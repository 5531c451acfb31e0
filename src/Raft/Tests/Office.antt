-- ===== src/Raft/Tests/Office.antt =====
-- Witness on elections: of three peers, the first is elected by itself and the second.
use cs_350_boston_u.Base.{ℕ, ◌≡◌, refl, none, some, true, [], ◌∷◌, arith}
use cs_350_boston_u.Base.Int.{pos, ◌+ℤ◌}
use cs_350_boston_u.Base.Word.{add_int}
use cs_350_boston_u.Raft.State.{Raft, Role, RequestVoteArgs, RequestVoteReply}
use cs_350_boston_u.Raft.Persist.{make_persister, read_persist, read_raft_state, persist}
use cs_350_boston_u.Raft.Vote.{request_vote}
use cs_350_boston_u.Raft.Election.{first_tally, begin_election, see_reply, end_election}
use cs_350_boston_u.Raft.Apply.{new_raft, make}
use cs_350_boston_u.Raft.Cluster.{Campaign, Cluster, update, next_asked, Step, Reach}
use cs_350_boston_u.Raft.Cluster.Safety.{IsStart, one_leader_per_term}
use cs_350_boston_u.Raft.Tests.{test_codec}

-- The request of the first peer in term 1.
abbrev ask : RequestVoteArgs
ask = record { term = pos 1; candidate_id = pos 0; last_log_index = pos 0; last_log_term = pos 0 }

abbrev yes_reply : RequestVoteReply
yes_reply = record { term = pos 0; vote_granted = true }

abbrev idle : Campaign
idle = record { who = 0; args = ask; asked = 0; answer = none; tally = first_tally }

abbrev s0 : Cluster ℕ
s0 = record { peers = λ i. new_raft 0 3 i make_persister; campaigns = λ _. idle; opened = 0 }

abbrev s1 : Cluster ℕ
s1 = record {
  peers = update s0.peers 0 (begin_election (s0.peers 0)).0;
  campaigns = update s0.campaigns 0 (record idle { args = (begin_election (s0.peers 0)).1 });
  opened = 1;
}

abbrev s2 : Cluster ℕ
s2 = record s1 { campaigns = update s1.campaigns 0 (record (s1.campaigns 0) { asked = 1 }) }

abbrev s3 : Cluster ℕ
s3 = record s2 {
  peers = update s2.peers 1 (request_vote (s2.peers 1) (s2.campaigns 0).args).0;
  campaigns = update s2.campaigns 0 (record (s2.campaigns 0) {
    answer = some (request_vote (s2.peers 1) (s2.campaigns 0).args).1;
  });
}

abbrev s4 : Cluster ℕ
s4 = record s3 {
  peers = update s3.peers 0 (see_reply (s3.peers 0) (s3.campaigns 0).args yes_reply);
  campaigns = update s3.campaigns 0 (next_asked (s3.campaigns 0) yes_reply);
}

abbrev elected : Raft ℕ
elected = record (new_raft 0 3 0 make_persister) {
  current_term = pos 1;
  voted_for = pos 0;
  role = Role.leader;
  next_index = pos 1 ∷ pos 1 ∷ pos 1 ∷ [];
  match_index = pos 0 ∷ pos 0 ∷ pos 0 ∷ [];
  election_resets = 1;
}

abbrev s5 : Cluster ℕ
s5 = record s4 { peers = update s4.peers 0 elected }

s0-IsStart : IsStart 3 0 s0
unfolding make read_persist read_raft_state make_persister
s0-IsStart = record { disks = λ _. make_persister; made = λ i. refl; no_campaign = refl }

s0-Reach-s5 : Reach 3 s0 s5
unfolding begin_election request_vote see_reply end_election persist new_raft add_int ◌+ℤ◌
s0-Reach-s5 =
    Reach.next
      (Reach.next
        (Reach.next
          (Reach.next (Reach.next Reach.here (Step.begin 0 (omega arith) (omega arith)))
            (Step.skip 0 (omega arith) refl refl))
          (Step.deliver 0 (omega arith) (omega arith) (omega arith)))
        (Step.count 0 yes_reply (omega arith) refl))
      (Step.finish 0 elected (omega arith) refl)

one_leader_per_term_example : ◌≡◌ {A = ℕ} 0 0
one_leader_per_term_example =
    one_leader_per_term 3 0 s0 s5 0 0 s0-IsStart s0-Reach-s5 refl refl refl
