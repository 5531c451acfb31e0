-- ===== src/MapReduce/Coordinator/Handing/Loop.antt =====
-- mr/coordinator.go, `RequestTask`: which task its loop hands out, and the tasks that are ready or completed.
use cs_350_boston_u.Base.{
  ℕ, zero, suc, ◌+◌, ◌<◌, ◌≡◌, refl, ap, ◌∙◌, ◌≢◌, ◌⊎◌, inl, inr, true, false, none, some, List, [],
  ◌∷◌, get_elem?, set, arith, Bool-cases, subst,
}
use cs_350_boston_u.MapReduce.Coordinator.{
  Status, Task, all_completed, is_completed, is_ready, begun, hand_out,
}

module _ {F : Type 0} where
  -- The task may be handed out: nobody has it, and its start lies more than ten seconds back.
  abbrev pub Ready : ℕ → Task F → Type 0
  Ready now t = (t.status ≡ Status.unassigned) × (t.start_time + 10 < now)

  abbrev pub NoneReady : ℕ → List (Task F) → Type 0
  NoneReady now ts = (k : ℕ) (t : Task F) → get_elem? ts k ≡ some t → ¬ Ready now t

  abbrev pub AllCompleted : List (Task F) → Type 0
  AllCompleted ts = (k : ℕ) (t : Task F) → get_elem? ts k ≡ some t → t.status ≡ Status.completed

  abbrev pub SomeOpen : List (Task F) → Type 0
  SomeOpen ts = (k : ℕ) × (t : Task F) × (get_elem? ts k ≡ some t) × (t.status ≢ Status.completed)

  -- Task `k` has been handed out: it was the first that was ready, and it is in progress now.
  pub record Handed (now k : ℕ) (t : Task F) (ts ts' : List (Task F)) : Type 0 where
    pub old : Task F
    pub at : get_elem? ts k ≡ some old
    pub ready : Ready now old
    pub begins : t ≡ record old { status = Status.in_progress; start_time = now }
    pub new_tasks : ts' ≡ set ts k t
    pub first : (j : ℕ) (u : Task F) → j < k → get_elem? ts j ≡ some u → ¬ Ready now u

  is_ready-Ready : (now : ℕ) (t : Task F) → is_ready now t ≡ false → ¬ Ready now t
  is_ready-Ready now t busy (fresh, late) = ground arith

  Handed-suc :
      (now k : ℕ) (u t : Task F) (ts ts' : List (Task F))
      → ¬ Ready now u
      → Handed now k t ts ts'
      → Handed now (suc k) t (u ∷ ts) (u ∷ ts')
  Handed-suc now k u t ts ts' busy h = record {
    old = h.old;
    at = h.at;
    ready = h.ready;
    begins = h.begins;
    new_tasks = ap (λ r. u ∷ r) h.new_tasks;
    first = first;
  }
    where
      first : (j : ℕ) (v : Task F) → j < suc k → get_elem? (u ∷ ts) j ≡ some v → ¬ Ready now v
      first zero v lt at = let e : u ≡ v = cc at in subst (λ w. ¬ Ready now w) e busy
      first (suc j) v lt at = h.first j v (omega arith) at

  Handed-here :
      (now : ℕ) (t : Task F) (ts : List (Task F))
      → is_ready now t ≡ true
      → Handed now 0 (begun now t) (t ∷ ts) (begun now t ∷ ts)
  Handed-here now t ts ready = record {
    old = t;
    at = refl;
    ready = ground arith;
    begins = refl;
    new_tasks = refl;
    first = λ j u lt at. absurd (omega arith);
  }

  pub all_completed-each : (ts : List (Task F)) → all_completed ts ≡ true → AllCompleted ts
  unfolding all_completed
  all_completed-each [] all k t at = cc
  all_completed-each (u ∷ us) all zero t at = ground (arith, all, at)
  all_completed-each (u ∷ us) all (suc k) t at = all_completed-each us (ground (arith, all)) k t at

  pub each-all_completed : (ts : List (Task F)) → AllCompleted ts → all_completed ts ≡ true
  unfolding all_completed
  each-all_completed [] each = refl
  each-all_completed (u ∷ us) each =
      ground (arith, each 0 u refl, each-all_completed us (λ k t at. each (suc k) t at))

  SomeOpen-suc : (u : Task F) (us : List (Task F)) → SomeOpen us → SomeOpen (u ∷ us)
  SomeOpen-suc u us (k, t, at, open_yet) = (suc k, t, at, open_yet)

  pub not_all-SomeOpen : (ts : List (Task F)) → all_completed ts ≡ false → SomeOpen ts
  unfolding all_completed
  not_all-SomeOpen [] more = cc
  not_all-SomeOpen (u ∷ us) more = elim (Bool-cases (is_completed u.status)) [
    | inl over ↦ SomeOpen-suc u us (not_all-SomeOpen us (ground (arith, over, more)))
    | inr still ↦ (0, u, refl, λ over. cc (over, still))
  ]

  pub AllCompleted-NoneReady : (now : ℕ) (ts : List (Task F)) → AllCompleted ts → NoneReady now ts
  AllCompleted-NoneReady now ts all k t at (fresh, late) = cc (all k t at, fresh)

  -- The loop, from index `i`: it hands out the first ready task, or there is none.
  pub hand_out_cases :
      (now i : ℕ) (ts : List (Task F))
      → ((k : ℕ) × (t : Task F) × (ts' : List (Task F)) × (hand_out now i ts ≡ some (i + k, t, ts'))
          × Handed now k t ts ts')
        ⊎ ((hand_out now i ts ≡ none) × NoneReady now ts)
  unfolding hand_out
  hand_out_cases now i [] = inr (refl, λ j u at. cc)
  hand_out_cases now i (t ∷ ts) = elim (Bool-cases (is_ready now t)) [
    | inl ready ↦ inl (
      0,
      begun now t,
      begun now t ∷ ts,
      rw ready (ap (λ n. some (n, begun now t, begun now t ∷ ts)) (omega arith)),
      Handed-here now t ts ready,
    )
    | inr busy ↦ elim (hand_out_cases now (suc i) ts) [
      | inl (k, u, us, run, h) ↦ inl (
        suc k,
        u,
        t ∷ us,
        rw busy (rw run (ap (λ n. some (n, u, t ∷ us)) (omega arith))),
        Handed-suc now k t u ts us (is_ready-Ready now t busy) h,
      )
      | inr (run, rest) ↦
          inr (rw busy (rw run refl), none_ready t ts (is_ready-Ready now t busy) rest)
    ]
  ]
    where
      none_ready :
          (v : Task F) (vs : List (Task F))
          → ¬ Ready now v
          → NoneReady now vs
          → NoneReady now (v ∷ vs)
      none_ready v vs b r zero u at = let e : v ≡ u = cc at in subst (λ w. ¬ Ready now w) e b
      none_ready v vs b r (suc j) u at = r j u at

  pub hand_out_first :
      (now : ℕ) (ts : List (Task F))
      → ((k : ℕ) × (t : Task F) × (ts' : List (Task F)) × (hand_out now 0 ts ≡ some (k, t, ts'))
          × Handed now k t ts ts')
        ⊎ ((hand_out now 0 ts ≡ none) × NoneReady now ts)
  hand_out_first now ts = elim (hand_out_cases now 0 ts) [
    | inl (k, t, ts', run, h) ↦ inl (k, t, ts', run ∙ ap (λ n. some (n, t, ts')) (omega arith), h)
    | inr h ↦ inr h
  ]
