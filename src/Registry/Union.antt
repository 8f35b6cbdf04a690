-- ===== src/Registry/Union.antt =====
-- What is approved at a height, across overlapping lists (`approved_for`, sentinel/registry.py).
use sentinel_subnet.Registry.{
  Registry, active_at, approved_for, measurements, nothing_in_effect, union_at,
}
use sentinel_subnet.Base.Result.{err, ok}
use sentinel_subnet.Base.Text.{Text, member, text_eq}
use sentinel_subnet.Base.{
  Bool, Bool-cases, List, [], any, ap, arith, false, inl, inr, refl, ℕ, ◌&&◌, ◌++◌, ◌||◌, ◌∙◌, ◌∷◌,
  ◌≡◌, ◌⊎◌,
}

any-append : (P : Text → Bool) (xs ys : List Text) → any P (xs ++ ys) ≡ (any P xs || any P ys)
any-append P [] ys = refl
any-append P (x ∷ xs) ys = ground (arith, any-append P xs ys)

member-union_at :
    (rs : List Registry) (block : ℕ) (m : Text)
    → member m (union_at rs block) ≡ any (λ r. active_at r block && member m (measurements r)) rs
unfolding union_at member
member-union_at [] block m = refl
member-union_at (r ∷ rs) block m = elim (Bool-cases (active_at r block)) [
  | inl now ↦ rw now (
      any-append (text_eq m) (measurements r) (union_at rs block)
      ∙ ap (λ b. any (text_eq m) (measurements r) || b) (member-union_at rs block m))
  | inr later ↦ rw later (member-union_at rs block m)
]

-- At a height some list has to be in effect, and then a measurement is approved exactly when a list
-- that is in effect has it: a new list beside the old one takes nothing away.
pub approved_for-union :
    (rs : List Registry) (block : ℕ)
    → ((approved_for rs block ≡ err nothing_in_effect)
        × ((m : Text) → any (λ r. active_at r block && member m (measurements r)) rs ≡ false))
      ⊎ ((out : List Text) × (approved_for rs block ≡ ok out)
          × ((m : Text)
              → member m out ≡ any (λ r. active_at r block && member m (measurements r)) rs))
unfolding approved_for
approved_for-union rs block = elim (Bool-cases (any (λ r. active_at r block) rs)) [
  | inl some_list ↦ inr (union_at rs block, rw some_list refl, λ m. member-union_at rs block m)
  | inr no_list ↦ inl (rw no_list refl, λ m. none_active rs block m no_list)
]
  where
    none_active :
        (rs : List Registry) (block : ℕ) (m : Text)
        → any (λ r. active_at r block) rs ≡ false
        → any (λ r. active_at r block && member m (measurements r)) rs ≡ false
    none_active [] block m h = refl
    none_active (r ∷ rs) block m h = ground (arith, none_active rs block m)
