-- ===== src/Lock/Requests.antt =====
-- lockStore.go: requests on the store do to it what they do to the queues of the keys.
use cs_350_boston_u.Base.{
  ◌≡◌, refl, sym, ap, ◌∙◌, ◌≢◌, true, false, not, none, some, List, [], ◌∷◌, ◌++◌, if◌then◌else◌,
  returns, arith, Bool-cases, Option-cases, subst, fun_ext, inl, inr,
}
use cs_350_boston_u.Base.Comparable.{Comparable, eqb_self}
use cs_350_boston_u.Lock.{
  MultiMap, at, kept, filter, put, clean_empty, filter_at, get_lock_owner, lock, unlock,
}
use cs_350_boston_u.Lock.Queues.{
  join, leave, holder, NoDup, holder_head, join_append, filter-leave, leave-Absent, join-NoDup,
  leave-NoDup,
}

-- What a client asks for.
pub data Request (K ID : Type 0) : Type 0 where
  locks unlocks : K → ID → Request K ID

snoc_nonempty : {V : Type 0} (vs : List V) (v : V) → some (vs ++ v ∷ []) ≢ some []
snoc_nonempty [] v = λ e. cc
snoc_nonempty (w ∷ vs) v = λ e. cc

kept-list : {V : Type 0} (vs : List V) → (elim (kept (some vs)) [ none ↦ [] | some ws ↦ ws ]) ≡ vs
kept-list [] = refl
kept-list (v ∷ vs) = refl

kept-nonempty : {V : Type 0} (vs : List V) → kept (some vs) ≢ some []
kept-nonempty [] = λ e. cc
kept-nonempty (v ∷ vs) = λ e. cc

module _ {K ID : Type 0} ⦃keys : Comparable K⦄ ⦃ids : Comparable ID⦄ where
  -- The store after a request.
  abbrev pub step : Request K ID → MultiMap K ID → MultiMap K ID
  step (Request.locks key id) store = lock store key id
  step (Request.unlocks key id) store = unlock store key id

  abbrev pub run : List (Request K ID) → MultiMap K ID → MultiMap K ID
  run [] store = store
  run (r ∷ rs) store = run rs (step r store)

  -- The queues after a request: only that of its key changes.
  abbrev pub serve : Request K ID → (K → List ID) → K → List ID
  serve (Request.locks key id) queues k = if keys.eqb key k then join id (queues k) else queues k
  serve (Request.unlocks key id) queues k = if keys.eqb key k then leave id (queues k) else queues k

  abbrev pub serve_all : List (Request K ID) → (K → List ID) → K → List ID
  serve_all [] queues = queues
  serve_all (r ∷ rs) queues = serve_all rs (serve r queues)

  -- No key stands for an empty slice.
  abbrev pub Clean : MultiMap K ID → Type 0
  Clean store = (k : K) → store k ≢ some []

  at-lock_self :
      (store : MultiMap K ID) (k : K) (id : ID) → at (lock store k id) k ≡ join id (at store k)
  unfolding lock put
  at-lock_self store k id = ground (arith, eqb_self k, join_append id (at store k))

  at-unlock_self :
      (store : MultiMap K ID) (k : K) (id : ID) → at (unlock store k id) k ≡ leave id (at store k)
  unfolding unlock filter_at clean_empty
  at-unlock_self store k id =
      ground (arith, eqb_self k, filter-leave id (at store k), kept-list (leave id (at store k)))

  step-other :
      (store : MultiMap K ID) (key k : K) (id : ID)
      → keys.eqb key k ≡ false
      → (lock store key id k ≡ store k) × (unlock store key id k ≡ store k)
  unfolding lock unlock put filter_at clean_empty
  step-other store key k id other = ground (arith, other)

  step-serve :
      (r : Request K ID) (store : MultiMap K ID) (k : K)
      → at (step r store) k ≡ serve r (at store) k
  step-serve (Request.locks key id) store k = elim (Bool-cases (keys.eqb key k)) [
    | inl same ↦
        let e : key ≡ k = (keys.eqb_iff key k).0 same in
        rw same (
          subst (λ x. at (lock store x id) k ≡ join id (at store k)) (sym e)
            (at-lock_self store k id))
    | inr other ↦ ground (arith, other, (step-other store key k id other).0)
  ]
  step-serve (Request.unlocks key id) store k = elim (Bool-cases (keys.eqb key k)) [
    | inl same ↦
        let e : key ≡ k = (keys.eqb_iff key k).0 same in
        rw same (
          subst (λ x. at (unlock store x id) k ≡ leave id (at store k)) (sym e)
            (at-unlock_self store k id))
    | inr other ↦ ground (arith, other, (step-other store key k id other).1)
  ]

  lock-Clean : (store : MultiMap K ID) (key : K) (id : ID) → Clean store → Clean (lock store key id)
  unfolding lock put
  lock-Clean store key id clean k e = ground (arith, clean k, snoc_nonempty (at store key) id, e)

  unlock-Clean :
      (store : MultiMap K ID) (key : K) (id : ID) → Clean store → Clean (unlock store key id)
  unfolding unlock filter_at clean_empty
  unlock-Clean store key id clean k e = ground (
    arith,
    eqb_self key,
    clean k,
    kept-nonempty (filter (at store key) (λ elem. not (ids.eqb id elem))),
    e,
  )

  step-Clean : (r : Request K ID) (store : MultiMap K ID) → Clean store → Clean (step r store)
  step-Clean (Request.locks key id) store clean = lock-Clean store key id clean
  step-Clean (Request.unlocks key id) store clean = unlock-Clean store key id clean

  owner-some :
      (nobody : ID) (store : MultiMap K ID) (k : K) (vs : List ID)
      → Clean store
      → store k ≡ some vs
      → get_lock_owner nobody store k ≡ holder nobody (at store k)
  unfolding get_lock_owner
  owner-some nobody store k [] clean there = absurd (clean k there)
  owner-some nobody store k (x ∷ vs) clean there = ground (arith, there)

  owner-holder :
      (nobody : ID) (store : MultiMap K ID) (k : K)
      → Clean store
      → get_lock_owner nobody store k ≡ holder nobody (at store k)
  unfolding get_lock_owner
  owner-holder nobody store k clean = elim (Option-cases (store k)) [
    | inl missing ↦ ground (arith, missing)
    | inr (vs, there) ↦ owner-some nobody store k vs clean there
  ]

  -- After any sequence of requests from a store with no empty slice, the owner of a key is the head
  -- of its queue, which the requests for that key alone have formed; and the query never panics.
  pub run-serve_all :
      (nobody : ID) (rs : List (Request K ID)) (store : MultiMap K ID) (k : K)
      → Clean store
      → get_lock_owner nobody (run rs store) k ≡ holder nobody (serve_all rs (at store) k)
  run-serve_all nobody [] store k clean = owner-holder nobody store k clean
  run-serve_all nobody (r ∷ rs) store k clean =
      run-serve_all nobody rs (step r store) k (step-Clean r store clean)
      ∙ ap (λ (q : K → List ID). holder nobody (serve_all rs q k)) (fun_ext (step-serve r store))

  serve-NoDup :
      (r : Request K ID) (queues : K → List ID) (k : K)
      → NoDup (queues k)
      → NoDup (serve r queues k)
  serve-NoDup (Request.locks key id) queues k h = elim (Bool-cases (keys.eqb key k)) [
    | inl same ↦ rw same (join-NoDup id (queues k) h)
    | inr other ↦ rw other h
  ]
  serve-NoDup (Request.unlocks key id) queues k h = elim (Bool-cases (keys.eqb key k)) [
    | inl same ↦ rw same (leave-NoDup id (queues k) h)
    | inr other ↦ rw other h
  ]

  -- From queues in which no client stands twice, requests lead to queues in which none does.
  pub run-NoDup :
      (rs : List (Request K ID)) (store : MultiMap K ID)
      → ((k : K) → NoDup (at store k))
      → (k : K) → NoDup (at (run rs store) k)
  run-NoDup [] store h k = h k
  run-NoDup (r ∷ rs) store h k =
      run-NoDup rs (step r store)
        (λ k'. subst NoDup (sym (step-serve r store k')) (serve-NoDup r (at store) k' (h k'))) k

  -- In a store with no empty slice, where no client stands twice in the queue of a key: when the
  -- holder unlocks, the next client in the queue holds the lock, and the others keep their places.
  pub unlock_hands_over :
      (nobody : ID) (store : MultiMap K ID) (k : K) (id : ID) (rest : List ID)
      → Clean store
      → at store k ≡ id ∷ rest
      → NoDup (id ∷ rest)
      → (at (unlock store k id) k ≡ rest)
        × (get_lock_owner nobody (unlock store k id) k ≡ holder nobody rest)
  unlock_hands_over nobody store k id rest clean queue distinct =
      let gone : leave id (id ∷ rest) ≡ rest = rw (eqb_self id) (leave-Absent id rest distinct.0) in
      let next : at (unlock store k id) k ≡ rest =
        at-unlock_self store k id ∙ ap (leave id) queue ∙ gone in
      (
        next,
        owner-holder nobody (unlock store k id) k (unlock-Clean store k id clean)
            ∙ ap (holder nobody) next,
      )

  serve-head :
      (nobody : ID) (r : Request K ID) (queues : K → List ID) (k : K) (id : ID) (rest : List ID)
      → queues k ≡ id ∷ rest
      → r ≢ Request.unlocks k id
      → holder nobody (serve r queues k) ≡ returns (id, true)
  serve-head nobody (Request.locks key other) queues k id rest head not_own = ground (arith, head)
  serve-head nobody (Request.unlocks key other) queues k id rest head not_own =
      ground (arith, head, not_own, (keys.eqb_iff key k).0, (ids.eqb_iff other id).0)

  -- In a store with no empty slice, whoever holds a lock keeps it through any request but its own
  -- to unlock that key.
  pub step_keeps_owner :
      (nobody : ID) (r : Request K ID) (store : MultiMap K ID) (k : K) (id : ID)
      → Clean store
      → get_lock_owner nobody store k ≡ returns (id, true)
      → r ≢ Request.unlocks k id
      → get_lock_owner nobody (step r store) k ≡ returns (id, true)
  step_keeps_owner nobody r store k id clean owns other =
      let (rest, head) =
        holder_head nobody (at store k) id (sym (owner-holder nobody store k clean) ∙ owns) in
      owner-holder nobody (step r store) k (step-Clean r store clean)
      ∙ ap (holder nobody) (step-serve r store k)
      ∙ serve-head nobody r (at store) k id rest head other
