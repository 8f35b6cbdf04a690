-- ===== src/Base/Int.antt =====
-- Python's signed integers, where the program reads or prints one.
use sentinel_subnet.Base.{ltb, ◌==◌, ℕ, ◌≤◌, ◌≡◌, refl, ◌↔◌, Bool, true, false, arith}

-- `negsuc n` is -(n + 1).
pub data ℤ : Type 0 where
  pos : ℕ → ℤ
  negsuc : ℕ → ℤ

-- `a < b`
unfoldable pub ltb_ℤ : ℤ → ℤ → Bool
ltb_ℤ (pos a) (pos b) = ltb a b
ltb_ℤ (pos a) (negsuc b) = false
ltb_ℤ (negsuc a) (pos b) = true
ltb_ℤ (negsuc a) (negsuc b) = ltb b a

-- `a == b`
unfoldable pub eq_ℤ : ℤ → ℤ → Bool
eq_ℤ (pos a) (pos b) = a == b
eq_ℤ (negsuc a) (negsuc b) = a == b
eq_ℤ a b = false

infix 50 ◌≤ℤ◌
-- `a <= b`
abbrev pub ◌≤ℤ◌ : ℤ → ℤ → Type 0
◌≤ℤ◌ (pos a) (pos b) = a ≤ b
◌≤ℤ◌ (pos a) (negsuc b) = ⊥
◌≤ℤ◌ (negsuc a) (pos b) = Unit
◌≤ℤ◌ (negsuc a) (negsuc b) = b ≤ a

pub ltb_ℤ-le : (a b : ℤ) → (ltb_ℤ a b ≡ false) ↔ (b ≤ℤ a)
unfolding ltb_ℤ
ltb_ℤ-le (pos a) (pos b) = ground arith
ltb_ℤ-le (pos a) (negsuc b) = (λ _. tt, λ _. refl)
ltb_ℤ-le (negsuc a) (pos b) = (λ h. cc, λ h. elim h [ ])
ltb_ℤ-le (negsuc a) (negsuc b) = ground arith
