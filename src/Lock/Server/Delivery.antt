-- ===== src/Lock/Server/Delivery.antt =====
-- raft-lock/server.go: what the loop puts in the channels, and what it has applied then.
use cs_350_boston_u.Base.{
  ◌≡◌, ◌⊎◌, inl, inr, refl, sym, ap, subst, ◌∙◌, true, Bool-cases, Option, none, some, returns,
  blocks, arith, Option-cases,
}
use cs_350_boston_u.Base.Int.{ℤ, ◌≤ℤ◌, eqb_ℤ, eqb→eq}
use cs_350_boston_u.Raft.Apply.{ApplyMsg}
use cs_350_boston_u.Lock.Server.{Op, LockServer, assign, is_new, apply_once, send_result, apply_msg}

module _ {K : Type 0} where
  -- The message is a valid one at the index, with the operation.
  abbrev pub Carries : ℤ → Op K → ApplyMsg (Option (Op K)) → Type 0
  Carries index op msg =
      (msg.command_valid ≡ true) × (msg.command_index ≡ index) × (msg.command ≡ some op)

  -- The server has applied a request of the client that is the operation's or a later one.
  abbrev pub Applied : Op K → LockServer K → Type 0
  Applied op ls = (n : ℤ) × (ls.last_applied op.client_id ≡ some n) × (op.request_id ≤ℤ n)

  apply_once-Applied : (op : Op K) (ls : LockServer K) → Applied op (apply_once op ls)
  unfolding apply_once
  apply_once-Applied op ls = elim (Option-cases (ls.last_applied op.client_id)) [
    | inl first ↦ (op.request_id, ground (arith, first), omega arith)
    | inr (last_id, at) ↦ elim (Bool-cases (is_new ls op)) [
      | inl newer ↦ (op.request_id, rw newer (ground arith), omega arith)
      | inr old ↦ (last_id, rw old at, ground (arith, old, at))
    ]
  ]

  apply_once-keeps :
      (op other : Op K) (ls : LockServer K) → Applied op ls → Applied op (apply_once other ls)
  unfolding apply_once
  apply_once-keeps op other ls (n, at, le) = elim (Bool-cases (is_new ls other)) [
    | inl newer ↦ elim (Bool-cases (eqb_ℤ other.client_id op.client_id)) [
      | inl same ↦
          let e : other.client_id ≡ op.client_id = eqb→eq other.client_id op.client_id same in
          let at' : ls.last_applied other.client_id ≡ some n = ap ls.last_applied e ∙ at in
          (other.request_id, rw (newer, same) refl, ground (arith, newer, at', le))
      | inr apart ↦ (n, rw (newer, apart) at, le)
    ]
    | inr old ↦ (n, rw old at, le)
  ]

  apply_once-results : (op : Op K) (ls : LockServer K) → (apply_once op ls).results ≡ ls.results
  unfolding apply_once
  apply_once-results op ls = elim (Bool-cases (is_new ls op)) [
    | inl newer ↦ rw newer refl
    | inr old ↦ rw old refl
  ]

  send_result-returns :
      (index : ℤ) (op : Op K) (ls ls' : LockServer K)
      → send_result index op ls ≡ returns ls'
      → record ls { results = assign ls.results index (some op) } ≡ ls'
  unfolding send_result
  send_result-returns index op ls ls' run = elim (Option-cases (ls.results index)) [
    | inl missing ↦
        let e : send_result index op ls
            ≡ returns (record ls { results = assign ls.results index (some op) }) =
          rw (missing, send_result) refl in
        cc (e, run)
    | inr (none, there) ↦
        let e : send_result index op ls
            ≡ returns (record ls { results = assign ls.results index (some op) }) =
          rw (there, send_result) refl in
        cc (e, run)
    | inr (some waiting, there) ↦
        let e : send_result index op ls ≡ blocks = rw (there, send_result) refl in cc (e, run)
  ]

  -- A message is skipped, or its operation is applied and put in the channel of its index.
  abbrev pub Stepped : ApplyMsg (Option (Op K)) → LockServer K → LockServer K → Type 0
  Stepped msg ls ls' =
      (ls ≡ ls')
      ⊎ ((op : Op K) × Carries msg.command_index op msg
          × (ls'.last_applied ≡ (apply_once op ls).last_applied)
          × (ls'.results ≡ assign ls.results msg.command_index (some op)))

  pub apply_msg-Stepped :
      (msg : ApplyMsg (Option (Op K))) (ls ls' : LockServer K)
      → apply_msg msg ls ≡ returns ls'
      → Stepped msg ls ls'
  unfolding apply_msg
  apply_msg-Stepped msg ls ls' run = elim (Bool-cases msg.command_valid) [
    | inr invalid ↦
        let e : apply_msg msg ls ≡ returns ls = rw (invalid, apply_msg) refl in inl (cc (e, run))
    | inl valid ↦ elim (Option-cases msg.command) [
      | inl no_op ↦
          let e : apply_msg msg ls ≡ returns ls = rw (valid, no_op, apply_msg) refl in
          inl (cc (e, run))
      | inr (op, command) ↦
          let e : apply_msg msg ls ≡ send_result msg.command_index op (apply_once op ls) =
            rw (valid, command, apply_msg) refl in
          let last =
            send_result-returns msg.command_index op (apply_once op ls) ls' (sym e ∙ run) in
          inr (
            op,
            (valid, refl, command),
            ap (λ x. x.last_applied) (sym last),
            ap (λ x. x.results) (sym last)
                ∙ ap (λ r. assign r msg.command_index (some op)) (apply_once-results op ls),
          )
    ]
  ]

  pub apply_msg-keeps :
      (op : Op K) (msg : ApplyMsg (Option (Op K))) (ls ls' : LockServer K)
      → Stepped msg ls ls'
      → Applied op ls
      → Applied op ls'
  apply_msg-keeps op msg ls ls' (inl same) applied = subst (Applied op) same applied
  apply_msg-keeps op msg ls ls' (inr (other, _, last, _)) applied =
      let (n, at, le) = apply_once-keeps op other ls applied in
      (n, ap (λ f. f op.client_id) last ∙ at, le)

  pub apply_msg-Carries :
      (index : ℤ) (a : Op K) (msg : ApplyMsg (Option (Op K))) (ls ls' : LockServer K)
      → Stepped msg ls ls'
      → ls'.results index ≡ some (some a)
      → (ls.results index ≡ some (some a)) ⊎ (Carries index a msg × Applied a ls')
  apply_msg-Carries index a msg ls ls' (inl same) full = inl (ap (λ x. x.results index) same ∙ full)
  apply_msg-Carries index a msg ls ls' (inr (op, (valid, _, command), last, results)) full =
      elim (Bool-cases (eqb_ℤ msg.command_index index)) [
        | inl here ↦
            let put : some (some op) ≡ some (some a) =
              sym (ap (λ f. f index) results ∙ rw here refl) ∙ full in
            let same : op ≡ a = cc put in
            let (n, at, le) = apply_once-Applied op ls in
            inr (
              (valid, eqb→eq msg.command_index index here, command ∙ ap some same),
              subst (λ o. Applied o ls') same (n, ap (λ f. f op.client_id) last ∙ at, le),
            )
        | inr other ↦ inl (sym (ap (λ f. f index) results ∙ rw other refl) ∙ full)
      ]
