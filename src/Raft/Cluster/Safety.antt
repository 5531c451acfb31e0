-- ===== src/Raft/Cluster/Safety.antt =====
-- Election safety.
use cs_350_boston_u.Base.{
  ℕ, ◌≡◌, List, [], ◌∷◌, arith, returns, Ensures, Ensures-returns, Option-cases, inl, inr,
}
use cs_350_boston_u.Raft.State.{Raft, Role, Codec, Persister, update_last_log_info}
use cs_350_boston_u.Raft.Persist.{read_persist, restore}
use cs_350_boston_u.Raft.Apply.{make, new_raft}
use cs_350_boston_u.Raft.Cluster.{Cluster, Reach, here, next}
use cs_350_boston_u.Raft.Cluster.Count.{total_overlap}
use cs_350_boston_u.Raft.Cluster.Ballots.{Ballots, Good}
use cs_350_boston_u.Raft.Cluster.Steps.{Step-Good}

module _ {C : Type 0} ⦃codec : Codec C⦄ where
  record Made (n i : ℕ) (r : Raft C) : Type 0 where
    same_me : r.me ≡ i
    same_peers : r.num_peers ≡ n
    idle : r.role ≡ Role.follower

  read_persist-Made :
      (n i : ℕ) (bytes : List ℕ) (r : Raft C)
      → Made n i r
      → Ensures (Made n i) (read_persist bytes r)
  unfolding read_persist update_last_log_info
  read_persist-Made n i [] r m = m
  read_persist-Made n i (b ∷ bs) r m = elim (Option-cases (codec.decode (b ∷ bs))) [
    | inl e ↦ rw (e, restore) tt
    | inr (v, e) ↦ rw (e, restore) (ground arith)
  ]

  make-Made : (c : C) (n i : ℕ) (p : Persister) → Ensures (Made n i) (make c n i p)
  unfolding make
  make-Made c n i p = read_persist-Made n i _ (new_raft c n i p) (ground arith)

  -- Every peer has come out of `Make`, from whatever its persister held, and no election has begun.
  pub record IsStart (n : ℕ) (c : C) (s : Cluster C) : Type 0 where
    pub disks : ℕ → Persister
    pub made : (i : ℕ) → make c n i (disks i) ≡ returns (s.peers i)
    pub no_campaign : s.opened ≡ 0

  start-Good : (n : ℕ) (c : C) (s : Cluster C) → IsStart n c s → Good n (λ _ _ _. ⊥) s
  start-Good n c s st = record {
    same_me = λ i. (fresh i).same_me;
    same_peers = λ i. (fresh i).same_peers;
    holds = λ v t c h. absurd h;
    once = λ v t c d h. absurd h;
    office = λ i h. absurd (ground (arith, fresh i));
    running = λ k lt. absurd (omega (arith, st.no_campaign));
  }
    where
      fresh : (i : ℕ) → Made n i (s.peers i)
      fresh i = Ensures-returns (Made n i) (st.made i) (make-Made c n i (st.disks i))

  Reach-Good :
      (n : ℕ) (c : C) (s t : Cluster C)
      → IsStart n c s
      → Reach n s t
      → (Cast : Ballots) × Good n Cast t
  Reach-Good n c s s' st here = (_, start-Good n c s st)
  Reach-Good n c s u st (next {t} r x) = Step-Good x (Reach-Good n c s t st r).1

  Good-one_leader :
      (n : ℕ) (Cast : Ballots) (t : Cluster C)
      → Good n Cast t
      → (i j : ℕ) → (t.peers i).role ≡ Role.leader
      → (t.peers j).role ≡ Role.leader
      → (t.peers i).current_term ≡ (t.peers j).current_term
      → i ≡ j
  Good-one_leader n Cast t g i j li lj same =
      let (f, fn, fc) = g.office i li in
      let (h, hn, hc) = g.office j lj in
      let (v, lt, vf, vh) = total_overlap n f h (omega arith) in
      g.once v _ i j (fc v vf) (rw same (hc v vh))

  -- In any state that `n` peers reach after `Make`, by any interleaving of their methods, of the
  -- signals that `CommitLog` takes from `Commit` and of the resets of the election timer, with no
  -- restart of a peer, where candidates count the replies of the peers they asked and no term is
  -- the largest `int` when a campaign begins, two leaders of the same term are one peer.
  pub one_leader_per_term :
      (n : ℕ) (c : C) (s t : Cluster C) (i j : ℕ)
      → IsStart n c s
      → Reach n s t
      → (t.peers i).role ≡ Role.leader
      → (t.peers j).role ≡ Role.leader
      → (t.peers i).current_term ≡ (t.peers j).current_term
      → i ≡ j
  one_leader_per_term n c s t i j st r =
      let (Cast, g) = Reach-Good n c s t st r in Good-one_leader n Cast t g i j
