-- ===== src/Raft/Cluster/Ballots.antt =====
-- The invariant of a cluster: the votes that were ever cast, which back the leaders and the running
-- campaigns. The votes are no part of the state, so the invariant is stated for a relation `Cast`.
use cs_350_boston_u.Base.{
  ℕ, suc, ◌/◌, ◌≤◌, ◌<◌, ◌≡◌, sym, ◌∙◌, ◌≢◌, ◌⊎◌, inl, inr, Bool, true, arith, some,
}
use cs_350_boston_u.Base.Int.{ℤ, pos, ◌<ℤ◌}
use cs_350_boston_u.Raft.State.{Raft, Role, RequestVoteReply}
use cs_350_boston_u.Raft.Terms.{Advances}
use cs_350_boston_u.Raft.Cluster.{Cluster, Campaign, update, update_ind}
use cs_350_boston_u.Raft.Cluster.Count.{total}

-- Peer `v` has granted its vote of a term to a candidate.
abbrev pub Ballots : Type 1
Ballots = ℕ → ℤ → ℕ → Type 0

-- At least `m` of the `n` peers have voted for the candidate.
abbrev pub Backed : ℕ → Ballots → ℤ → ℕ → ℕ → Type 0
Backed n Cast t c m =
    (voters : ℕ → Bool) × (m ≤ total n voters) × ((v : ℕ) → voters v ≡ true → Cast v t c)

pub record Running (n : ℕ) (Cast : Ballots) (k : Campaign) : Type 0 where
  pub who_lt : k.who < n
  pub named : k.args.candidate_id ≡ pos k.who
  pub voters : ℕ → Bool
  pub cast : (v : ℕ) → voters v ≡ true → Cast v k.args.term k.who
  pub below : (v : ℕ) → voters v ≡ true → (v < k.asked) ⊎ (v ≡ k.who)
  pub counted : k.tally.votes_granted ≤ total n voters
  pub answered :
      (reply : RequestVoteReply)
      → k.answer ≡ some reply
      → reply.vote_granted ≡ true
      → (k.asked < n) × (k.asked ≢ k.who) × Cast k.asked k.args.term k.who

-- The votes when peer `i` casts one more, if `New` holds.
abbrev pub With : Ballots → ℕ → ℤ → ℕ → Type 0 → Ballots
With Cast i t c New v u d = Cast v u d ⊎ (New × (v ≡ i) × (u ≡ t) × (d ≡ c))

pub Backed-With :
    (n : ℕ) (Cast : Ballots) (i : ℕ) (t : ℤ) (c : ℕ) (New : Type 0) (u : ℤ) (d m : ℕ)
    → Backed n Cast u d m
    → Backed n (With Cast i t c New) u d m
Backed-With n Cast i t c New u d m (f, le, h) = (f, le, λ v e. inl (h v e))

pub Running-With :
    (n : ℕ) (Cast : Ballots) (i : ℕ) (t : ℤ) (c : ℕ) (New : Type 0) (k : Campaign)
    → Running n Cast k
    → Running n (With Cast i t c New) k
Running-With n Cast i t c New k g = record {
  who_lt = g.who_lt;
  named = g.named;
  voters = g.voters;
  cast = λ v e. inl (g.cast v e);
  below = g.below;
  counted = g.counted;
  answered = λ reply e y. let (a, b, h) = g.answered reply e y in (a, b, inl h);
}

module _ {C : Type 0} where
  -- A vote belongs to an earlier term than the peer's, or the peer still holds to it.
  abbrev pub Holds : Raft C → ℤ → ℕ → Type 0
  Holds r t c = (t <ℤ r.current_term) ⊎ ((t ≡ r.current_term) × (r.voted_for ≡ pos c))

  pub record Good (n : ℕ) (Cast : Ballots) (s : Cluster C) : Type 0 where
    pub same_me : (i : ℕ) → (s.peers i).me ≡ i
    pub same_peers : (i : ℕ) → (s.peers i).num_peers ≡ n
    pub holds : (v : ℕ) (t : ℤ) (c : ℕ) → Cast v t c → Holds (s.peers v) t c
    pub once : (v : ℕ) (t : ℤ) (c d : ℕ) → Cast v t c → Cast v t d → c ≡ d
    pub office :
        (i : ℕ)
        → (s.peers i).role ≡ Role.leader
        → Backed n Cast (s.peers i).current_term i (suc (n / 2))
    pub running : (k : ℕ) → k < s.opened → Running n Cast (s.campaigns k)

  Advances-Holds : (r r' : Raft C) (t : ℤ) (c : ℕ) → Advances r r' → Holds r t c → Holds r' t c
  Advances-Holds r r' t c a h = ground arith

  module _ (n : ℕ) (Cast : Ballots) (s : Cluster C) (g : Good n Cast s) (i : ℕ) (r' : Raft C)
      (me : r'.me ≡ (s.peers i).me) (size : r'.num_peers ≡ (s.peers i).num_peers)
      (adv : Advances (s.peers i) r') (t : ℤ) (c : ℕ) (New : Type 0)
      (granted : New → (r'.current_term ≡ t) × (r'.voted_for ≡ pos c))
      (leads : r'.role ≡ Role.leader
        → Backed n (With Cast i t c New) r'.current_term i (suc (n / 2))) where
    open g use {same_me, same_peers, holds, once, office, running}

    holds' : (v : ℕ) (u : ℤ) (d : ℕ) → With Cast i t c New v u d → Holds (update s.peers i r' v) u d
    holds' v u d (inl old) = ground (arith, holds v u d old, Advances-Holds (s.peers v) r' u d)
    holds' v u d (inr (new, ev, eu, ed)) = ground (arith, granted new)

    once' :
        (v : ℕ) (u : ℤ) (d e : ℕ) → With Cast i t c New v u d → With Cast i t c New v u e → d ≡ e
    once' v u d e (inl p) (inl q) = once v u d e p q
    once' v u d e (inl p) (inr q) = ground (arith, holds' v u d (inl p), granted q.0)
    once' v u d e (inr p) (inl q) = ground (arith, holds' v u e (inl q), granted p.0)
    once' v u d e (inr p) (inr q) = p.3 ∙ sym q.3

    office' :
        (j : ℕ)
        → (update s.peers i r' j).role ≡ Role.leader
        → Backed n (With Cast i t c New) (update s.peers i r' j).current_term j (suc (n / 2))
    office' j =
        update_ind
          (λ x r.
            r.role ≡ Role.leader → Backed n (With Cast i t c New) r.current_term x (suc (n / 2)))
          s.peers i r' leads j (λ _ h. Backed-With n Cast i t c New _ j _ (office j h))

    pub Good-peer : Good n (With Cast i t c New) (record s { peers = update s.peers i r' })
    Good-peer = record {
      same_me = λ j. ground (arith, same_me j, me);
      same_peers = λ j. ground (arith, same_peers j, same_peers i, size);
      holds = holds';
      once = once';
      office = office';
      running = λ k lt. Running-With n Cast i t c New _ (running k lt);
    }

  -- A campaign that is already running changes.
  pub Good-campaign :
      (n : ℕ) (Cast : Ballots) (s : Cluster C) (k : ℕ) (k' : Campaign)
      → Good n Cast s
      → Running n Cast k'
      → Good n Cast (record s { campaigns = update s.campaigns k k' })
  Good-campaign n Cast s k k' g run = record {
    same_me = g.same_me;
    same_peers = g.same_peers;
    holds = g.holds;
    once = g.once;
    office = g.office;
    running =
        λ j lt. update_ind (λ _ x. Running n Cast x) s.campaigns k k' run j (λ _. g.running j lt);
  }

  -- A campaign starts.
  pub Good-open :
      (n : ℕ) (Cast : Ballots) (s : Cluster C) (k' : Campaign)
      → Good n Cast s
      → Running n Cast k'
      → Good n Cast (record s { campaigns = update s.campaigns s.opened k'; opened = suc s.opened })
  Good-open n Cast s k' g run = record {
    same_me = g.same_me;
    same_peers = g.same_peers;
    holds = g.holds;
    once = g.once;
    office = g.office;
    running = λ j lt.
        update_ind (λ _ x. Running n Cast x) s.campaigns s.opened k' run j
          (λ ne. g.running j (ground arith));
  }
