-- ===== src/Lock/Clerk/Retry.antt =====
-- raft-lock/clerk.go: a clerk finds a server that accepts, and goes back to it.
use native.Mathlib.Nat.{mod-eq_of_lt, mod_self}
use cs_350_boston_u.Base.{
  ℕ, zero, suc, ◌+◌, ◌-◌, ◌%◌, ◌≤◌, ◌<◌, ltb, leb, ◌⊎◌, ◌≡◌, ◌≢◌, refl, ap, true, Bool-cases, inl,
  inr, Option, none, some, if◌then◌else◌, Returns, Returns->>=, arith,
}
use cs_350_boston_u.Base.Int.{pos}
use cs_350_boston_u.Base.Word.{add_int}
use cs_350_boston_u.Lock.Server.{OpType}
use cs_350_boston_u.Lock.Server.Mutex.{Err, MutexArgs}
use cs_350_boston_u.Lock.Clerk.{Clerk, accepted, try_servers, mutex_args, send_mutex}

next_server :
    (n server : ℕ) → server < n → (server + 1) % n ≡ (if ltb (server + 1) n then server + 1 else 0)
next_server n server lt = elim (Bool-cases (ltb (server + 1) n)) [
  | inl small ↦ rw small (mod-eq_of_lt (ground (arith, small)))
  | inr last ↦ let e : server + 1 ≡ n = ground (arith, last, lt) in rw (last, e) (mod_self n)
]

-- How many servers the loop asks before it asks `s`.
abbrev distance : ℕ → ℕ → ℕ → ℕ
distance n server s = if ltb s server then s + n - server else s - server

-- What the loop comes to: a server that accepts its call.
abbrev Found : (ℕ → ℕ → Option Err) → ℕ → Option ℕ → Type 0
Found call n none = ⊥
Found call n (some server) = (server < n) × ((try : ℕ) × (accepted (call try server) ≡ true))

-- There is fuel enough to reach `s`, which accepts from try `from` on.
abbrev Enough : ℕ → ℕ → ℕ → ℕ → ℕ → ℕ → Type 0
Enough fuel n from try server s =
    ((from ≤ try) × (distance n server s < fuel)) ⊎ ((from - try) + n ≤ fuel)

Enough-near :
    (fuel n from try server s : ℕ)
    → server < n
    → s < n
    → Enough fuel n from try server s
    → from ≤ try
    → distance n server s < fuel
Enough-near fuel n from try server s lt lt' (inl (_, near)) le = near
Enough-near fuel n from try server s lt lt' (inr far) le = ground (arith, far, lt, lt', le)

Enough-next :
    (fuel n from try server s : ℕ)
    → server < n
    → s < n
    → ((from ≤ try) → (server ≡ s) → ⊥)
    → Enough (suc fuel) n from try server s
    → Enough fuel n from (suc try) (if ltb (server + 1) n then server + 1 else 0) s
Enough-next fuel n from try server s lt lt' apart enough = elim (Bool-cases (leb from try)) [
  | inl late ↦
      let le : from ≤ try = ground (arith, late) in
      let near = Enough-near (suc fuel) n from try server s lt lt' enough le in
      let off : server ≢ s = apart le in inl (omega arith, ground (arith, near, off, lt, lt'))
  | inr early ↦ inr (elim enough [
    | inl (le, _) ↦ absurd (ground (arith, early, le))
    | inr far ↦ ground (arith, early, far)
  ])
]

try_servers-Found :
    (fuel : ℕ) (call : ℕ → ℕ → Option Err) (n from try server s : ℕ)
    → server < n
    → s < n
    → ((t : ℕ) → from ≤ t → accepted (call t s) ≡ true)
    → Enough fuel n from try server s
    → Returns (Found call n) (try_servers fuel call n try server)
unfolding try_servers
try_servers-Found zero call n from try server s lt lt' accepts enough =
    absurd (elim enough [ inl (_, near) ↦ omega arith | inr far ↦ omega arith ])
try_servers-Found (suc fuel) call n from try server s lt lt' accepts enough =
    let in_range : ltb server n ≡ true = ground (arith, lt) in
    elim (Bool-cases (accepted (call try server))) [
      | inl here ↦ rw (in_range, here) (lt, (try, here))
      | inr refuses ↦
          let apart : (from ≤ try) → (server ≡ s) → ⊥ =
            λ le same. cc (refuses, ap (λ x. accepted (call try x)) same, accepts try le) in
          let next : ℕ = if ltb (server + 1) n then server + 1 else 0 in
          let next_lt : next < n = ground (arith, lt) in
          rw (in_range, refuses, next_server n server lt)
            (try_servers-Found fuel call n from (suc try) next s next_lt lt' accepts
              (Enough-next fuel n from try server s lt lt' apart enough))
    ]

module _ {K : Type 0} where
  -- What a request leaves: the clerk goes on with a server that has accepted the request, which has the
  -- next request id.
  abbrev pub Served :
      (MutexArgs K → ℕ → ℕ → Option Err) → Clerk → K → OpType → Option Clerk → Type 0
  Served call ck key op none = ⊥
  Served call ck key op (some ck') =
      (ck' ≡ record ck { request_id = add_int ck.request_id (pos 1); leader_id = ck'.leader_id })
      × (ck'.leader_id < ck.servers)
      × ((try : ℕ) × (accepted (call (mutex_args ck' key op) try ck'.leader_id) ≡ true))

  Found-Served :
      (call : MutexArgs K → ℕ → ℕ → Option Err) (ck : Clerk) (key : K) (op : OpType)
      (found : Option ℕ)
      → (let ck1 = record ck { request_id = add_int ck.request_id (pos 1) } in
          Found (call (mutex_args ck1 key op)) ck.servers found
          → Served call ck key op
              (elim found [ none ↦ none | some server ↦ some (record ck1 { leader_id = server }) ]))
  Found-Served call ck key op none h = elim h [ ]
  Found-Served call ck key op (some server) (lt, h) = (refl, lt, h)

  -- If a server accepts the request at every try from some try on, and the clerk's leader is one of the
  -- servers, then the clerk is served within as many tries more as there are servers: the loop ends with
  -- a server that has accepted the request, and the clerk keeps that server as its leader. The request
  -- has the next request id.
  pub send_mutex-Served :
      (call : MutexArgs K → ℕ → ℕ → Option Err) (ck : Clerk) (key : K) (op : OpType) (from s : ℕ)
      → ck.leader_id < ck.servers
      → s < ck.servers
      → ((args : MutexArgs K) (t : ℕ) → from ≤ t → accepted (call args t s) ≡ true)
      → Returns (Served call ck key op) (send_mutex (from + ck.servers) call ck key op)
  unfolding send_mutex
  send_mutex-Served call ck key op from s lt lt' accepts =
      let ck1 = record ck { request_id = add_int ck.request_id (pos 1) } in
      let args = mutex_args ck1 key op in
      Returns->>= (Found (call args) ck.servers) (Served call ck key op)
        (try_servers (from + ck.servers) (call args) ck.servers 0 ck.leader_id) _
        (try_servers-Found (from + ck.servers) (call args) ck.servers from 0 ck.leader_id s lt lt'
          (accepts args) (inr (omega arith)))
        (λ found h. Found-Served call ck key op found h)
