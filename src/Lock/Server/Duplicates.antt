-- ===== src/Lock/Server/Duplicates.antt =====
-- raft-lock/server.go: a request that reaches the log twice is applied once.
use cs_350_boston_u.Base.{
  ◌≡◌, sym, ap, ◌∙◌, Bool-cases, inl, inr, true, Option, some, List, [], ◌∷◌, arith, Returns,
  Option-cases, ◌≢◌,
}
use cs_350_boston_u.Base.Int.{ℤ, ◌≤ℤ◌, ◌<ℤ◌, eqb_ℤ, eqb→eq}
use cs_350_boston_u.Raft.Apply.{ApplyMsg}
use cs_350_boston_u.Lock.Server.{Op, LockServer, assign, is_new, apply_once, send_result, apply_msg}

module _ {K : Type 0} where
  -- The operation came before each of the others of its client.
  abbrev pub Older : Op K → List (Op K) → Type 0
  Older op [] = Unit
  Older op (c ∷ cs) = (c.client_id ≡ op.client_id → c.request_id <ℤ op.request_id) × Older op cs

  -- In each client's calls, the last first, the request ids go down.
  abbrev pub Ordered : List (Op K) → Type 0
  Ordered [] = Unit
  Ordered (c ∷ cs) = Older c cs × Ordered cs

  -- The record of a client is at least the id of each of its calls.
  abbrev Recorded : (ℤ → Option ℤ) → List (Op K) → Type 0
  Recorded last [] = Unit
  Recorded last (c ∷ cs) =
      ((n : ℤ) × (last c.client_id ≡ some n) × (c.request_id ≤ℤ n)) × Recorded last cs

  -- What the server keeps.
  abbrev pub Once : LockServer K → Type 0
  Once ls = Ordered ls.calls × Recorded ls.last_applied ls.calls

  Recorded-Older :
      (last : ℤ → Option ℤ) (op : Op K) (cs : List (Op K))
      → ((n : ℤ) → last op.client_id ≡ some n → n <ℤ op.request_id)
      → Recorded last cs
      → Older op cs
  Recorded-Older last op [] newer r = tt
  Recorded-Older last op (c ∷ cs) newer ((n, at, le), r) = (
    (λ same. omega (arith, newer n (ap last (sym same) ∙ at), le)),
    Recorded-Older last op cs newer r,
  )

  Recorded-assign :
      (last : ℤ → Option ℤ) (op : Op K) (cs : List (Op K))
      → ((n : ℤ) → last op.client_id ≡ some n → n <ℤ op.request_id)
      → Recorded last cs
      → Recorded (assign last op.client_id op.request_id) cs
  Recorded-assign last op [] newer r = tt
  Recorded-assign last op (c ∷ cs) newer ((n, at, le), r) = (
    elim (Bool-cases (eqb_ℤ op.client_id c.client_id)) [
      | inl same ↦
          let e : op.client_id ≡ c.client_id = eqb→eq op.client_id c.client_id same in
          (op.request_id, ground (arith, same), omega (arith, newer n (ap last e ∙ at), le))
      | inr other ↦ (n, ground (arith, other, at), le)
    ],
    Recorded-assign last op cs newer r,
  )

  is_new-newer :
      (op : Op K) (ls : LockServer K)
      → is_new ls op ≡ true
      → (n : ℤ) → ls.last_applied op.client_id ≡ some n
      → n <ℤ op.request_id
  is_new-newer op ls fresh n at = ground (arith, fresh, at)

  apply_once-Once : (op : Op K) (ls : LockServer K) → Once ls → Once (apply_once op ls)
  unfolding apply_once
  apply_once-Once op ls (ordered, recorded) = elim (Bool-cases (is_new ls op)) [
    | inr old ↦ rw old (ordered, recorded)
    | inl fresh ↦
        let newer = is_new-newer op ls fresh in
        rw fresh (
          (Recorded-Older ls.last_applied op ls.calls newer recorded, ordered),
          (
            (op.request_id, ground arith, omega arith),
            Recorded-assign ls.last_applied op ls.calls newer recorded,
          ),
        )
  ]

  send_result-Once :
      (index : ℤ) (op : Op K) (ls : LockServer K)
      → ((waiting : Op K) → ls.results index ≢ some (some waiting))
      → Once ls
      → Returns Once (send_result index op ls)
  unfolding send_result
  send_result-Once index op ls room once = elim (Option-cases (ls.results index)) [
    | inl absent ↦ rw (absent, Returns) once
    | inr (chan, made) ↦ elim (Option-cases chan) [
      | inl empty ↦ rw (made ∙ ap some empty, Returns) once
      | inr (waiting, full) ↦ absurd (room waiting (made ∙ ap some full))
    ]
  ]

  apply_once-results : (op : Op K) (ls : LockServer K) → (apply_once op ls).results ≡ ls.results
  unfolding apply_once
  apply_once-results op ls = ground arith

  -- If no operation waits in the channel of its index, a message is handled to the end. The operations
  -- that have been applied for a client then still have ids that go up: none has been applied twice, and
  -- none after a later one, whatever has been delivered and however often.
  pub apply_msg-Once :
      (msg : ApplyMsg (Option (Op K))) (ls : LockServer K)
      → ((waiting : Op K) → ls.results msg.command_index ≢ some (some waiting))
      → Once ls
      → Returns Once (apply_msg msg ls)
  unfolding apply_msg
  apply_msg-Once msg ls room once = elim (Bool-cases msg.command_valid) [
    | inr invalid ↦ rw invalid once
    | inl valid ↦ elim (Option-cases msg.command) [
      | inl other ↦ rw valid (rw other once)
      | inr (op, command) ↦ rw valid (
          rw command (
            send_result-Once msg.command_index op (apply_once op ls)
              (λ waiting. rw (apply_once-results op ls) (room waiting))
              (apply_once-Once op ls once)))
    ]
  ]

  -- A second delivery of an operation, right after the first, changes nothing.
  apply_once_idempotent :
      (op : Op K) (ls : LockServer K) → apply_once op (apply_once op ls) ≡ apply_once op ls
  unfolding apply_once
  apply_once_idempotent op ls = ground arith
