-- ===== src/Raft/Cluster/Campaigns.antt =====
-- The votes that back a campaign, through each thing that happens to it.
use cs_350_boston_u.Base.{
  ℕ, suc, ◌<◌, ◌≡◌, refl, ap, ◌≢◌, inl, inr, true, false, arith, none, some, Bool-cases,
}
use cs_350_boston_u.Base.Int.{pos}
use cs_350_boston_u.Raft.State.{Raft, RequestVoteReply}
use cs_350_boston_u.Raft.Election.{no_reply, first_tally, begin_election}
use cs_350_boston_u.Raft.Cluster.{Campaign, update_ind, next_asked}
use cs_350_boston_u.Raft.Cluster.Count.{add, total-add}
use cs_350_boston_u.Raft.Cluster.Ballots.{Ballots, Running, With}

module _ {C : Type 0} where
  -- A campaign that has just begun has the candidate's own vote.
  pub begin-Running :
      (n : ℕ) (Cast : Ballots) (r : Raft C) (i : ℕ)
      → i < n
      → r.me ≡ i
      → Running n (With Cast i (begin_election r).1.term i Unit) (record {
        who = i;
        args = (begin_election r).1;
        asked = 0;
        answer = none;
        tally = first_tally;
      })
  unfolding begin_election
  begin-Running n Cast r i lt me = record {
    who_lt = lt;
    named = ap pos me;
    voters = add (λ _. false) i;
    cast = λ v e. inr (tt, ground arith, refl, refl);
    below = λ v e. inr (ground arith);
    counted = ground (arith, total-add n (λ _. false) i);
    answered = λ reply e y. cc;
  }

pub deliver-Running :
    (n : ℕ) (Cast : Ballots) (k : Campaign) (reply : RequestVoteReply)
    → k.asked < n
    → k.asked ≢ k.who
    → Running n Cast k
    → Running n
        (With Cast k.asked k.args.term k.who (reply.vote_granted ≡ true))
        (record k { answer = some reply })
deliver-Running n Cast k reply lt ne run = record {
  who_lt = run.who_lt;
  named = run.named;
  voters = run.voters;
  cast = λ v e. inl (run.cast v e);
  below = run.below;
  counted = run.counted;
  answered = λ reply' e y. (lt, ne, inr (ground arith, refl, refl, refl));
}

pub lose-Running :
    (n : ℕ) (Cast : Ballots) (k : Campaign)
    → Running n Cast k
    → Running n Cast (record k { answer = some no_reply })
lose-Running n Cast k run = record {
  who_lt = run.who_lt;
  named = run.named;
  voters = run.voters;
  cast = run.cast;
  below = run.below;
  counted = run.counted;
  answered = λ reply e y. absurd (ground arith);
}

pub skip-Running :
    (n : ℕ) (Cast : Ballots) (k : Campaign)
    → k.answer ≡ none
    → Running n Cast k
    → Running n Cast (record k { asked = suc k.asked })
skip-Running n Cast k e run = record {
  who_lt = run.who_lt;
  named = run.named;
  voters = run.voters;
  cast = run.cast;
  below = λ v h. ground (arith, run.below v h);
  counted = run.counted;
  answered = λ reply e' y. absurd (ground arith);
}

-- A reply that grants the vote adds a peer that was not counted before.
granted-Running :
    (n : ℕ) (Cast : Ballots) (k : Campaign) (reply : RequestVoteReply)
    → k.answer ≡ some reply
    → reply.vote_granted ≡ true
    → Running n Cast k
    → Running n Cast (next_asked k reply)
granted-Running n Cast k reply e y run =
    let (lt, ne, vote) = run.answered reply e y in
    record {
      who_lt = run.who_lt;
      named = run.named;
      voters = add run.voters k.asked;
      cast = λ v.
          update_ind (λ u b. b ≡ true → Cast u k.args.term k.who) run.voters k.asked true
            (λ _. vote) v (λ _. run.cast v);
      below = λ v h. ground (arith, run.below v);
      counted = ground (arith, total-add n run.voters k.asked lt, run.below k.asked, run.counted);
      answered = λ reply' e' y'. absurd (ground arith);
    }

refused-Running :
    (n : ℕ) (Cast : Ballots) (k : Campaign) (reply : RequestVoteReply)
    → reply.vote_granted ≡ false
    → Running n Cast k
    → Running n Cast (next_asked k reply)
refused-Running n Cast k reply y run = record {
  who_lt = run.who_lt;
  named = run.named;
  voters = run.voters;
  cast = run.cast;
  below = λ v h. ground (arith, run.below v h);
  counted = ground (arith, run.counted);
  answered = λ reply' e' y'. absurd (ground arith);
}

pub count-Running :
    (n : ℕ) (Cast : Ballots) (k : Campaign) (reply : RequestVoteReply)
    → k.answer ≡ some reply
    → Running n Cast k
    → Running n Cast (next_asked k reply)
count-Running n Cast k reply e run = elim (Bool-cases reply.vote_granted) [
  | inl y ↦ granted-Running n Cast k reply e y run
  | inr y ↦ refused-Running n Cast k reply y run
]
