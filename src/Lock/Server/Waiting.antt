-- ===== src/Lock/Server/Waiting.antt =====
-- raft-lock/server.go: a handler that answers `OK` has seen its operation applied.
use cs_350_boston_u.Base.{
  ◌≡◌, ◌⊎◌, inl, inr, refl, sym, ap, subst, ◌∙◌, Bool, true, false, Bool-cases, none, some, List,
  if◌then◌else◌, not, returns, ◌>>=◌, >>=-eq-returns, arith, Option-cases,
}
use cs_350_boston_u.Base.Int.{ℤ, ◌≤ℤ◌, eqb→eq}
use cs_350_boston_u.Lock.Server.{Op, LockServer, assign, is_same_op}
use cs_350_boston_u.Lock.Server.Delivery.{Applied}
use cs_350_boston_u.Lock.Server.Happenings.{
  Delivered, Quiet-keeps, open_result-Quiet, happen_all-keeps, happen_all-Delivered,
}
use cs_350_boston_u.Lock.Server.Mutex.{
  Err, MutexArgs, Happening, happen_all, op_of, open_result, receive, wait_for_applied, mutex,
}

answer_ok : (b : Bool) → (if not b then Err.err_wrong_leader else Err.ok) ≡ Err.ok → b ≡ true
answer_ok true h = refl
answer_ok false h = cc

module _ {K : Type 0} where
  -- The channel of the index, if there is one, is empty.
  abbrev pub Vacant : ℤ → LockServer K → Type 0
  Vacant index ls = (ls.results index ≡ none) ⊎ (ls.results index ≡ some none)

  -- What a handler finds in its channel has been delivered before or after it had the channel.
  found_Delivered :
      (index : ℤ) (a : Op K) (early late : List (Happening K)) (ls mid last : LockServer K)
      → Vacant index ls
      → happen_all early ls ≡ returns mid
      → happen_all late (open_result index mid) ≡ returns last
      → last.results index ≡ some (some a)
      → (Delivered index a early ⊎ Delivered index a late) × Applied a last
  found_Delivered index a early late ls mid last vacant first next full =
      elim (happen_all-Delivered index a late (open_result index mid) last next full) [
        | inr (delivered, applied) ↦ (inr delivered, applied)
        | inl before ↦
            elim (happen_all-Delivered index a early ls mid first
              ((open_result-Quiet index mid).1 index a before)) [
                | inr (delivered, applied) ↦ (
                  inl delivered,
                  happen_all-keeps a late (open_result index mid) last next (
                      Quiet-keeps a mid (open_result index mid) (open_result-Quiet index mid)
                        applied),
                )
                | inl there ↦ absurd (elim vacant [
                  | inl missing ↦ cc (missing, there)
                  | inr empty ↦ cc (empty, there)
                ])
              ]
      ]

  receive-true :
      (timed_out : Bool) (index : ℤ) (op : Op K) (ls : LockServer K)
      → (receive timed_out index op ls).1 ≡ true
      → (a : Op K) × (ls.results index ≡ some (some a))
        × (is_same_op op a ≡ true)
        × ((receive timed_out index op ls).0.last_applied ≡ ls.last_applied)
  unfolding receive
  receive-true timed_out index op ls h =
      let Result : Type 0 = LockServer K × Bool × Op K in
      elim (Option-cases (ls.results index)) [
        | inl missing ↦
            let e : receive timed_out index op ls ≡ (ls, false, op) = rw (missing, receive) refl in
            absurd (cc (sym (ap (λ (r : Result). r.1) e) ∙ h))
        | inr (none, empty) ↦
            let e : receive timed_out index op ls ≡ (ls, false, op) = rw (empty, receive) refl in
            absurd (cc (sym (ap (λ (r : Result). r.1) e) ∙ h))
        | inr (some a, full) ↦ elim (Bool-cases timed_out) [
          | inl late ↦
              let e : receive timed_out index op ls ≡ (ls, false, op) =
                rw (full, receive, late) refl in
              absurd (cc (sym (ap (λ (r : Result). r.1) e) ∙ h))
          | inr in_time ↦
              let taken : LockServer K = record ls { results = assign ls.results index none } in
              let e : receive timed_out index op ls ≡ (taken, is_same_op op a, a) =
                rw (full, receive, in_time) refl in
              (
                a,
                full,
                sym (ap (λ (r : Result). r.1) e) ∙ h,
                ap (λ (r : Result). r.0.last_applied) e,
              )
        ]
      ]

  is_same_op-eq :
      (op a : Op K)
      → is_same_op op a ≡ true
      → (a.client_id ≡ op.client_id) × (a.request_id ≡ op.request_id)
  unfolding is_same_op
  is_same_op-eq op a same = (
    sym (eqb→eq op.client_id a.client_id (ground (arith, same))),
    sym (eqb→eq op.request_id a.request_id (ground (arith, same))),
  )

  Applied-same :
      (op a : Op K) (ls ls' : LockServer K)
      → ls'.last_applied ≡ ls.last_applied
      → a.client_id ≡ op.client_id
      → a.request_id ≡ op.request_id
      → Applied a ls
      → Applied op ls'
  Applied-same op a ls ls' same client request (n, at, le) = (
    n,
    ap (λ f. f op.client_id) same ∙ ap ls.last_applied (sym client) ∙ at,
    subst (λ r. r ≤ℤ n) request le,
  )

  mutex-leader :
      (index term : ℤ) (timed_out : Bool) (early late : List (Happening K)) (args : MutexArgs K)
      (ls ls' : LockServer K)
      → Vacant index ls
      → mutex (index, term, true) (early, late) timed_out args ls ≡ returns (ls', Err.ok)
      → ((a : Op K) × (Delivered index a early ⊎ Delivered index a late)
          × (a.client_id ≡ args.client_id)
          × (a.request_id ≡ args.request_id))
        × Applied (op_of args) ls'
  unfolding mutex wait_for_applied
  mutex-leader index term timed_out early late args ls ls' vacant run =
      let Result : Type 0 = LockServer K × Bool × Op K in
      let op = op_of args in
      let (out, waited, answered) =
        >>=-eq-returns (wait_for_applied (index, term, true) (early, late) timed_out op ls)
          (λ (r : Result). returns (r.0, if not r.1 then Err.err_wrong_leader else Err.ok)) run in
      let (mid, first, second) =
        >>=-eq-returns (happen_all early ls)
          (λ ls1. happen_all late (open_result index ls1) >>= λ ls2.
            returns (receive timed_out index op ls2))
          waited in
      let (last, next, received) =
        >>=-eq-returns (happen_all late (open_result index mid))
          (λ ls2. returns (receive timed_out index op ls2)) second in
      let got : receive timed_out index op last ≡ out = cc received in
      let kept : out.0 ≡ ls' = cc answered in
      let yes_out : out.1 ≡ true = answer_ok out.1 (cc answered) in
      let (a, full, same, same_last) =
        receive-true timed_out index op last (ap (λ (r : Result). r.1) got ∙ yes_out) in
      let (client, request) = is_same_op-eq op a same in
      let (delivered, applied) =
        found_Delivered index a early late ls mid last vacant first next full in
      (
        (a, delivered, client, request),
        Applied-same op a last ls'
            (ap (λ x. x.last_applied) (sym kept ∙ sym (ap (λ (r : Result). r.0) got)) ∙ same_last)
            client request applied,
      )

  -- If the handler answers `OK`, whatever the loop and the other handlers did before and after it had its
  -- channel, and no operation waited in the channel of the index when it began, then the server was the
  -- leader when it started the operation, one of the messages that the loop applied meanwhile is at the
  -- index and carries an operation with the client and the request id of the arguments, and the server
  -- has applied that request or a later one of the client.
  pub mutex-ok :
      (index term : ℤ) (is_leader timed_out : Bool) (early late : List (Happening K))
      (args : MutexArgs K) (ls ls' : LockServer K)
      → Vacant index ls
      → mutex (index, term, is_leader) (early, late) timed_out args ls ≡ returns (ls', Err.ok)
      → (is_leader ≡ true)
        × ((a : Op K) × (Delivered index a early ⊎ Delivered index a late)
            × (a.client_id ≡ args.client_id)
            × (a.request_id ≡ args.request_id))
        × Applied (op_of args) ls'
  unfolding mutex wait_for_applied
  mutex-ok index term is_leader timed_out early late args ls ls' vacant run =
      elim (Bool-cases is_leader) [
        | inr other ↦
            let e : mutex (index, term, is_leader) (early, late) timed_out args ls
                ≡ returns (ls, Err.err_wrong_leader) =
              rw (other, mutex, wait_for_applied) refl in
            absurd (cc (e, run))
        | inl leads ↦
            let (found, applied) = mutex-leader index term timed_out early late args ls ls' vacant (
              subst
                (λ b.
                  mutex (index, term, b) (early, late) timed_out args ls ≡ returns (ls', Err.ok))
                leads run) in
            (leads, found, applied)
      ]
