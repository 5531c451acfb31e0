-- ===== src/Base/Comparable.antt =====
-- Go types that `==` compares, such as strings and integers, and `<` orders.
use cs_350_boston_u.Base.{◌≡◌, ◌≢◌, ◌↔◌, Bool, true, false, refl, sym, ◌∙◌, Bool-cases, inl, inr}

pub record Comparable (K : Type 0) : Type 0 where
  pub eqb : K → K → Bool
  pub eqb_iff : (a b : K) → (eqb a b ≡ true) ↔ (a ≡ b)

pub eqb_self : {K : Type 0} ⦃keys : Comparable K⦄ (k : K) → keys.eqb k k ≡ true
eqb_self ⦃keys⦄ k = (keys.eqb_iff k k).1 refl

pub eqb_true : {K : Type 0} ⦃keys : Comparable K⦄ (a b : K) → keys.eqb a b ≡ true → a ≡ b
eqb_true ⦃keys⦄ a b h = (keys.eqb_iff a b).0 h

pub eqb_comm : {K : Type 0} ⦃keys : Comparable K⦄ (a b : K) → keys.eqb a b ≡ keys.eqb b a
eqb_comm ⦃keys⦄ a b = elim (Bool-cases (keys.eqb a b)) [
  | inl h ↦ h ∙ sym ((keys.eqb_iff b a).1 (sym (eqb_true a b h)))
  | inr h ↦ elim (Bool-cases (keys.eqb b a)) [
    | inl h' ↦ (keys.eqb_iff a b).1 (sym (eqb_true b a h')) ∙ sym h'
    | inr h' ↦ h ∙ sym h'
  ]
]

pub eqb_false : {K : Type 0} ⦃keys : Comparable K⦄ (a b : K) → a ≢ b → keys.eqb a b ≡ false
eqb_false ⦃keys⦄ a b ne = elim (Bool-cases (keys.eqb a b)) [
  | inl h ↦ absurd (ne (eqb_true a b h))
  | inr h ↦ h
]
