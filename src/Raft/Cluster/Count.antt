-- ===== src/Raft/Cluster/Count.antt =====
-- How many of the first `n` peers a set holds, and why two majorities meet.
use cs_350_boston_u.Base.{
  ℕ, zero, suc, ◌+◌, ◌≤◌, ◌<◌, ◌≡◌, refl, Bool, true, false, ◌==◌, if◌then◌else◌, arith, Bool-cases,
  inl, inr,
}

abbrev pub total : ℕ → (ℕ → Bool) → ℕ
total zero f = 0
total (suc n) f = (if f n then 1 else 0) + total n f

abbrev pub add : (ℕ → Bool) → ℕ → ℕ → Bool
add f v u = if v == u then true else f u

total-add_above : (n : ℕ) (f : ℕ → Bool) (v : ℕ) → n ≤ v → total n (add f v) ≡ total n f
total-add_above zero f v h = refl
total-add_above (suc n) f v h = ground (arith, total-add_above n f v)

pub total-add :
    (n : ℕ) (f : ℕ → Bool) (v : ℕ) → v < n → f v ≡ false → total n (add f v) ≡ total n f + 1
total-add zero f v h new = absurd (omega arith)
total-add (suc n) f v h new = ground (arith, total-add n f v, total-add_above n f v)

pub total_le : (n : ℕ) (f : ℕ → Bool) → total n f ≤ n
total_le zero f = omega arith
total_le (suc n) f = ground (arith, total_le n f)

-- Two sets that hold more than `n` of `n` peers together share one.
pub total_overlap :
    (n : ℕ) (f g : ℕ → Bool)
    → n < total n f + total n g
    → (v : ℕ) × (v < n) × (f v ≡ true) × (g v ≡ true)
total_overlap zero f g h = absurd (omega arith)
total_overlap (suc n) f g h = elim (Bool-cases (f n)) [
  | inl ef ↦ elim (Bool-cases (g n)) [
    | inl eg ↦ (n, omega arith, ef, eg)
    | inr eg ↦ let (v, lt, p, q) = total_overlap n f g (ground arith) in (v, omega arith, p, q)
  ]
  | inr ef ↦ let (v, lt, p, q) = total_overlap n f g (ground arith) in (v, omega arith, p, q)
]
