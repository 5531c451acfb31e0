-- ===== src/Raft/Persist.antt =====
-- persister.go, and `persist` and `readPersist` of raft.go.
use cs_350_boston_u.Base.{
  ℕ, ◌≡◌, refl, ap, List, [], ◌∷◌, Option, none, some, Outcome, returns, panics, length,
}
use cs_350_boston_u.Raft.State.{Raft, Saved, Codec, Persister, update_last_log_info}

-- `clone`: a fresh copy of the bytes.
abbrev pub clone : List ℕ → List ℕ
clone [] = []
clone (b ∷ bs) = b ∷ clone bs

pub clone_eq : (bs : List ℕ) → clone bs ≡ bs
clone_eq [] = refl
clone_eq (b ∷ bs) = ap (λ r. b ∷ r) (clone_eq bs)

unfoldable pub make_persister : Persister
make_persister = record { raftstate = []; snapshot = [] }

-- `Persister.Copy`
unfoldable pub copy : Persister → Persister
copy ps = record { raftstate = ps.raftstate; snapshot = ps.snapshot }

unfoldable pub save_raft_state : List ℕ → Persister → Persister
save_raft_state state ps = record ps { raftstate = clone state }

unfoldable pub read_raft_state : Persister → List ℕ
read_raft_state ps = clone ps.raftstate

unfoldable pub raft_state_size : Persister → ℕ
raft_state_size ps = length ps.raftstate

unfoldable pub save_state_and_snapshot : List ℕ → List ℕ → Persister → Persister
save_state_and_snapshot state snapshot ps = record {
  raftstate = clone state;
  snapshot = clone snapshot;
}

unfoldable pub read_snapshot : Persister → List ℕ
read_snapshot ps = clone ps.snapshot

unfoldable pub snapshot_size : Persister → ℕ
snapshot_size ps = length ps.snapshot

module _ {C : Type 0} ⦃codec : Codec C⦄ where
  abbrev pub saved_of : Raft C → Saved C
  saved_of rf = record { term = rf.current_term; voted_for = rf.voted_for; log = rf.log }

  unfoldable pub persist : Raft C → Raft C
  unfolding save_raft_state
  persist rf = record rf { persister = save_raft_state (codec.encode (saved_of rf)) rf.persister }

  unfoldable pub restore : Raft C → Option (Saved C) → Outcome (Raft C)
  restore rf none = panics
  restore rf (some s) = returns (
      update_last_log_info
        (record rf { current_term = s.term; voted_for = s.voted_for; log = s.log }))

  -- `log.Fatal` ends the process, as a panic does.
  unfoldable pub read_persist : List ℕ → Raft C → Outcome (Raft C)
  unfolding restore
  read_persist [] rf = returns rf
  read_persist (b ∷ bs) rf = restore rf (codec.decode (b ∷ bs))
