-- ===== src/Floats.antt =====
-- Python's floats, which the program computes with and does not implement: an ordered type with
-- the operations that the code calls. The laws are those of floats that are not NaN; no law of
-- rounding, and none of the arithmetic but the order of 0 and 1, is assumed.
use reportportal_analyzer_ng.Prelude.{
  leb, if◌then◌else◌, Bool-cases, ℕ, ◌+◌, ◌-◌, ◌*◌, ◌/◌, ◌≡◌, refl, ◌⊎◌, inl, inr, Bool, true, not,
  ◌&&◌, arith,
}

pub record Floats (F : Type 0) : Type 0 where
  pub le : F → F → Bool
  pub add : F → F → F
  pub sub : F → F → F
  pub mul : F → F → F
  pub div : F → F → F
  -- the literal with this numerator and denominator, or the quotient of two integers
  pub ratio : ℕ → ℕ → F
  pub le_refl : (a : F) → le a a ≡ true
  pub le_trans : (a b c : F) → le a b ≡ true → le b c ≡ true → le a c ≡ true
  pub le_total : (a b : F) → (le a b ≡ true) ⊎ (le b a ≡ true)
  pub zero_le_one : le (ratio 0 1) (ratio 1 1) ≡ true

module _ {F : Type 0} ⦃fl : Floats F⦄ where
  abbrev pub lt : F → F → Bool
  lt a b = not (fl.le b a)

  -- `a == b`
  abbrev pub same : F → F → Bool
  same a b = fl.le a b && fl.le b a

  -- `max(a, b)` and `min(a, b)` return the first of two equal arguments
  abbrev pub fmax : F → F → F
  fmax a b = if lt a b then b else a

  abbrev pub fmin : F → F → F
  fmin a b = if lt b a then b else a

  abbrev pub fzero : F
  fzero = fl.ratio 0 1

  abbrev pub fone : F
  fone = fl.ratio 1 1

  -- `max(0.0, min(1.0, x))`; the guard of `_clamp01` for NaN and infinities has no case here
  abbrev pub clamp01 : F → F
  clamp01 x = fmax fzero (fmin fone x)

  pub lt-le : (a b : F) → lt a b ≡ true → fl.le a b ≡ true
  lt-le a b h = ground (arith, fl.le_total a b)

  pub lt-le_trans : (a b c : F) → lt a b ≡ true → fl.le b c ≡ true → lt a c ≡ true
  lt-le_trans a b c h k = elim (Bool-cases (fl.le c a)) [
    | inl e ↦ cc (fl.le_trans b c a k e)
    | inr e ↦ rw e
  ]

  pub clamp01_bounds : (x : F) → (fl.le fzero (clamp01 x) ≡ true) × (fl.le (clamp01 x) fone ≡ true)
  clamp01_bounds x = ground (
    arith,
    fl.le_refl fzero,
    fl.le_refl fone,
    fl.zero_le_one,
    fl.le_total fone x,
    fl.le_total fzero x,
    fl.le_total fzero fone,
  )

-- A stand-in for tests: natural numbers of ten-thousandths.

pub stub_le_refl : (a : ℕ) → leb a a ≡ true
stub_le_refl a = ground arith

pub stub_le_trans : (a b c : ℕ) → leb a b ≡ true → leb b c ≡ true → leb a c ≡ true
stub_le_trans a b c h k = ground arith

pub stub_le_total : (a b : ℕ) → (leb a b ≡ true) ⊎ (leb b a ≡ true)
stub_le_total a b = ground arith

instance abbrev pub fixed_point : Floats ℕ
fixed_point = record {
  le = leb;
  add = λ a b. a + b;
  sub = λ a b. a - b;
  mul = λ a b. a * b / 10000;
  div = λ a b. a * 10000 / b;
  ratio = λ n d. n * 10000 / d;
  le_refl = stub_le_refl;
  le_trans = stub_le_trans;
  le_total = stub_le_total;
  zero_le_one = refl;
}
