-- ===== src/Std/Eq.antt =====
-- `Eq` and `Ord` of Rust as interfaces, with the laws that their implementations have to meet.
use farsight.Prelude.{
  ℕ, ◌≡◌, refl, ◌↔◌, ◌⊎◌, inl, inr, Bool, true, false, ◌&&◌, ◌||◌, arith, ==_iff, leb, ltb,
}
use farsight.Prelude

-- `PartialEq::eq` where it decides equality.
pub record Eq {ℓ} (T : Type ℓ) : Type ℓ where
  pub equal : T → T → Bool
  pub equal_iff : (x y : T) → (equal x y ≡ true) ↔ (x ≡ y)

infix 50 ◌==◌
abbrev pub ◌==◌ {ℓ} : {T : Type ℓ} ⦃e : Eq T⦄ → T → T → Bool
◌==◌ ⦃e⦄ x y = e.equal x y

pub ==_refl {ℓ} : {A : Type ℓ} ⦃e : Eq A⦄ (a : A) → (a == a) ≡ true
==_refl ⦃e⦄ a = (e.equal_iff a a).1 refl

instance abbrev pub nat_eq : Eq ℕ
nat_eq = record { equal = Prelude.◌==◌; equal_iff = ==_iff }

pub pair_equal_iff :
    (a b : ℕ × ℕ) → ((Prelude.◌==◌ a.0 b.0 && Prelude.◌==◌ a.1 b.1) ≡ true) ↔ (a ≡ b)
pair_equal_iff a b = ground arith

-- Keys such as `(Ipv4Addr, u16)`.
instance abbrev pub pair_eq : Eq (ℕ × ℕ)
pair_eq = record {
  equal = λ a b. Prelude.◌==◌ a.0 b.0 && Prelude.◌==◌ a.1 b.1;
  equal_iff = pair_equal_iff;
}

-- A total order; `OrderedFloat<f64>` and tuples over it have one.
pub record LinearOrder {ℓ} (A : Type ℓ) : Type ℓ where
  pub leq : A → A → Bool
  pub leq_total : (a b : A) → (leq a b ≡ true) ⊎ (leq b a ≡ true)
  pub leq_trans : (a b c : A) → leq a b ≡ true → leq b c ≡ true → leq a c ≡ true
  pub leq_antisymm : (a b : A) → leq a b ≡ true → leq b a ≡ true → a ≡ b

abbrev pub lex_leq : ℕ × ℕ → ℕ × ℕ → Bool
lex_leq a b = ltb a.0 b.0 || (Prelude.◌==◌ a.0 b.0 && leb a.1 b.1)

pub lex_leq_total : (a b : ℕ × ℕ) → (lex_leq a b ≡ true) ⊎ (lex_leq b a ≡ true)
lex_leq_total a b = ground arith

pub lex_leq_trans : (a b c : ℕ × ℕ) → lex_leq a b ≡ true → lex_leq b c ≡ true → lex_leq a c ≡ true
lex_leq_trans a b c = ground arith

pub lex_leq_antisymm : (a b : ℕ × ℕ) → lex_leq a b ≡ true → lex_leq b a ≡ true → a ≡ b
lex_leq_antisymm a b = ground arith

-- Pairs in the order of tuples, the first component before the second.
instance abbrev pub nat_pair_order : LinearOrder (ℕ × ℕ)
nat_pair_order = record {
  leq = lex_leq;
  leq_total = lex_leq_total;
  leq_trans = lex_leq_trans;
  leq_antisymm = lex_leq_antisymm;
}
