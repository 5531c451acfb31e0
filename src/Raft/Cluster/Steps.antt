-- ===== src/Raft/Cluster/Steps.antt =====
-- Each step of a cluster keeps the invariant of its votes.
use cs_350_boston_u.Base.{
  ℕ, suc, ◌/◌, ◌<◌, ◌≡◌, refl, sym, ◌∙◌, ap, ◌⊎◌, inl, inr, Bool, true, arith, List, Ensures,
  Ensures-returns,
}
use cs_350_boston_u.Base.Int.{ℤ, pos, eq_of_parts}
use cs_350_boston_u.Raft.State.{
  Raft, Role, Codec, RequestVoteArgs, AppendEntriesReply, reset_election_timer,
}
use cs_350_boston_u.Raft.Vote.{request_vote}
use cs_350_boston_u.Raft.Election.{Tally, begin_election, see_reply, end_election}
use cs_350_boston_u.Raft.Apply.{ApplyMsg}
use cs_350_boston_u.Raft.Terms.{Keeps, request_vote-Keeps, request_vote-granted}
use cs_350_boston_u.Raft.Terms.Append.{append_entries-Keeps}
use cs_350_boston_u.Raft.Terms.Leader.{
  start-Keeps, handle_append_entries_response-Keeps, apply_commits-Keeps, see_reply-Keeps,
  begin_election-Keeps,
}
use cs_350_boston_u.Raft.Cluster.{
  Cluster, Campaign, update, Local, votes, appends, starts, hears, applies, receives, ticks, Step,
  local, begin, skip, deliver, lose, count, finish,
}
use cs_350_boston_u.Raft.Cluster.Ballots.{
  Ballots, Backed, Running, Good, With, Backed-With, Running-With, Good-peer, Good-campaign,
  Good-open,
}
use cs_350_boston_u.Raft.Cluster.Campaigns.{
  begin-Running, deliver-Running, lose-Running, skip-Running, count-Running,
}

module _ {C : Type 0} where
  -- What the end of an election does to the candidate.
  record Ends (r : Raft C) (args : RequestVoteArgs) (tally : Tally) (r' : Raft C) : Type 0 where
    same_me : r'.me ≡ r.me
    same_peers : r'.num_peers ≡ r.num_peers
    same_term : r'.current_term ≡ r.current_term
    same_vote : r'.voted_for ≡ r.voted_for
    leads :
        r'.role ≡ Role.leader
        → (r.role ≡ Role.leader)
          ⊎ ((r.current_term ≡ args.term) × (r.num_peers / 2 < tally.votes_granted))

  own_vote :
      (r : Raft C) (i : ℕ)
      → r.me ≡ i
      → ((begin_election r).0.current_term ≡ (begin_election r).1.term)
        × ((begin_election r).0.voted_for ≡ pos i)
  unfolding begin_election
  own_vote r i me = (refl, ap pos me)

  end_election-Ends :
      (r : Raft C) (args : RequestVoteArgs) (tally : Tally)
      → Ensures (Ends r args tally) (end_election r args tally)
  unfolding end_election
  end_election-Ends r args tally = ground (arith, eq_of_parts r.current_term args.term)

  module _ (n : ℕ) (Cast : Ballots) (s : Cluster C) (g : Good n Cast s) where
    Keeps-Good :
        (i : ℕ) (r' : Raft C) (t : ℤ) (c : ℕ) (New : Type 0)
        → (New → (r'.current_term ≡ t) × (r'.voted_for ≡ pos c))
        → Keeps (s.peers i) r'
        → Good n (With Cast i t c New) (record s { peers = update s.peers i r' })
    Keeps-Good i r' t c New granted k =
        Good-peer n Cast s g i r' k.same_me k.same_peers k.advances t c New granted (λ h.
          let (old, e) = k.in_office h in
          rw e (Backed-With n Cast i t c New _ i _ (g.office i old)))

    finish-Good :
        (k : Campaign) (r' : Raft C)
        → Running n Cast k
        → Ends (s.peers k.who) k.args k.tally r'
        → Good n
            (With Cast k.who k.args.term k.who ⊥)
            (record s { peers = update s.peers k.who r' })
    finish-Good k r' run e =
        Good-peer n Cast s g k.who r' e.same_me e.same_peers
          (inr (sym e.same_term, inl (sym e.same_vote))) k.args.term k.who ⊥ (λ x. absurd x) leads'
      where
        leads' :
            r'.role ≡ Role.leader
            → Backed n (With Cast k.who k.args.term k.who ⊥) r'.current_term k.who (suc (n / 2))
        leads' h = elim (e.leads h) [
          | inl old ↦ rw e.same_term (Backed-With n Cast _ _ _ ⊥ _ _ _ (g.office k.who old))
          | inr (et, many) ↦
              rw (e.same_term, et)
                (
                  run.voters,
                  grind (arith, g.same_peers k.who, run.counted),
                  λ v y. inl (run.cast v y),
                )
        ]

module _ {C : Type 0} ⦃codec : Codec C⦄ where
  reset_election_timer-Keeps : (r : Raft C) → Keeps r (reset_election_timer r)
  unfolding reset_election_timer
  reset_election_timer-Keeps r = ground arith

  Local-Keeps : {r r' : Raft C} → Local r r' → Keeps r r'
  Local-Keeps {r} (votes args e) = rw e (request_vote-Keeps r args)
  Local-Keeps {r} (appends args reply e) =
      Ensures-returns (λ (o : Raft C × AppendEntriesReply). Keeps r o.0) e
        (append_entries-Keeps r args)
  Local-Keeps {r} (starts c res e) =
      Ensures-returns (λ (o : Raft C × ℤ × ℤ × Bool). Keeps r o.0) e (start-Keeps r c)
  Local-Keeps {r} (hears reply args server next term res e) =
      Ensures-returns (λ (o : Raft C × ℤ × Bool). Keeps r o.0) e
        (handle_append_entries_response-Keeps r reply args server next term)
  Local-Keeps {r} (applies msgs e) =
      Ensures-returns (λ (o : Raft C × List (ApplyMsg C)). Keeps r o.0) e (apply_commits-Keeps r)
  Local-Keeps {r} (receives left full e) = rw e (ground arith)
  Local-Keeps {r} (ticks e) = rw e (reset_election_timer-Keeps r)

  module _ {n : ℕ} {Cast : Ballots} where
    -- After a step some votes may have been added.
    pub Step-Good :
        {s t : Cluster C} → Step n s t → Good n Cast s → (Cast' : Ballots) × Good n Cast' t
    Step-Good {s} (local i r' lt l) g =
        (_, Keeps-Good n Cast s g i r' (pos 0) 0 ⊥ (λ x. absurd x) (Local-Keeps l))
    Step-Good {s} (begin i lt fits) g = (
      _,
      Good-open n _ _ _
          (Keeps-Good n Cast s g i (begin_election (s.peers i)).0
            (begin_election (s.peers i)).1.term i Unit (λ _. own_vote (s.peers i) i (g.same_me i))
            (begin_election-Keeps (s.peers i) fits).0)
          (begin-Running n Cast (s.peers i) i lt (g.same_me i)),
    )
    Step-Good {s} (skip k lt e none_yet) g =
        (Cast, Good-campaign n Cast s k _ g (skip-Running n Cast _ none_yet (g.running k lt)))
    Step-Good {s} (deliver k lt in_range ne) g =
        let c = s.campaigns k in
        let run = g.running k lt in
        let r = s.peers c.asked in
        (
          _,
          Good-campaign n _ _ k _
              (Keeps-Good n Cast s g c.asked (request_vote r c.args).0 c.args.term c.who
                ((request_vote r c.args).1.vote_granted ≡ true)
                (λ y. let (a, b) = request_vote-granted r c.args y in (a, b ∙ run.named))
                (request_vote-Keeps r c.args))
              (deliver-Running n Cast c (request_vote r c.args).1 in_range ne run),
        )
    Step-Good {s} (lose k lt ne) g =
        (Cast, Good-campaign n Cast s k _ g (lose-Running n Cast _ (g.running k lt)))
    Step-Good {s} (count k reply lt e) g =
        let c = s.campaigns k in
        (
          _,
          Good-campaign n _ _ k _
              (Keeps-Good n Cast s g c.who (see_reply (s.peers c.who) c.args reply) (pos 0) 0 ⊥
                (λ x. absurd x) (see_reply-Keeps (s.peers c.who) c.args reply))
              (Running-With n Cast c.who (pos 0) 0 ⊥ _
                (count-Running n Cast c reply e (g.running k lt))),
        )
    Step-Good {s} (finish k r' lt e) g =
        let c = s.campaigns k in
        (
          _,
          finish-Good n Cast s g c r' (g.running k lt) (
              Ensures-returns (Ends (s.peers c.who) c.args c.tally) e
                (end_election-Ends (s.peers c.who) c.args c.tally)),
        )
