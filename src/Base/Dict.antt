-- ===== src/Base/Dict.antt =====
-- Python's `dict` keyed by texts, in insertion order.
use mathlib.Core.Path.{◌≡◌, refl}
use mathlib.Core.Bool.{Bool}
use mathlib.Core.Option.{Option, none, some}
use mathlib.Core.List.{List, [], ◌∷◌}
use native.Mathlib.Omega.{arith}
use sentinel_subnet.Base.Tests.{Bool-cases, if◌then◌else◌, is_some}
use sentinel_subnet.Base.Text.{Text, text_eq, text_eq_iff, text_eq_refl}
use sentinel_subnet.Base.{inl, inr}

abbrev pub Dict {ℓ} : Type ℓ → Type ℓ
Dict V = List (Text × V)

module _ {ℓ} {V : Type ℓ} where
  -- `d.get(k)`
  unfoldable pub lookup : Text → Dict V → Option V
  lookup k [] = none
  lookup k ((j, v) ∷ d) = if text_eq j k then some v else lookup k d

  -- `k in d`
  unfoldable pub contains : Text → Dict V → Bool
  unfolding lookup
  contains k d = is_some (lookup k d)

  -- `d[k] = v`: in place if the key is there, else at the end
  unfoldable pub insert : Text → V → Dict V → Dict V
  insert k v [] = (k, v) ∷ []
  insert k v ((j, w) ∷ d) = if text_eq j k then (j, v) ∷ d else (j, w) ∷ insert k v d

  -- `d.pop(k, None)`, `del d[k]`
  unfoldable pub erase : Text → Dict V → Dict V
  erase k [] = []
  erase k ((j, w) ∷ d) = let rest = erase k d in if text_eq j k then rest else (j, w) ∷ rest

  -- `{j: v for j, v in d.items() if p(j, v)}`
  unfoldable pub retain : (Text → V → Bool) → Dict V → Dict V
  retain p [] = []
  retain p ((j, w) ∷ d) = let rest = retain p d in if p j w then (j, w) ∷ rest else rest

  pub lookup-insert :
      (k j : Text) (v : V) (d : Dict V)
      → lookup j (insert k v d) ≡ (if text_eq k j then some v else lookup j d)
  unfolding lookup insert
  lookup-insert k j v [] = refl
  lookup-insert k j v ((i, w) ∷ d) =
      ground (arith, text_eq_iff k j, text_eq_iff i k, text_eq_iff i j, lookup-insert k j v d)

  pub lookup-erase :
      (k j : Text) (d : Dict V) → lookup j (erase k d) ≡ (if text_eq k j then none else lookup j d)
  unfolding lookup erase
  lookup-erase k j [] = ground arith
  lookup-erase k j ((i, w) ∷ d) =
      ground (arith, text_eq_iff k j, text_eq_iff i k, text_eq_iff i j, lookup-erase k j d)

  pub lookup-insert_self : (k : Text) (v : V) (d : Dict V) → lookup k (insert k v d) ≡ some v
  lookup-insert_self k v d = simp (lookup-insert, text_eq_refl)

  pub lookup-erase_self : (k : Text) (d : Dict V) → lookup k (erase k d) ≡ none
  lookup-erase_self k d = simp (lookup-erase, text_eq_refl)

  -- No key is listed twice, as in every `dict`.
  abbrev pub IsDict : Dict V → Type ℓ
  IsDict [] = Unit
  IsDict ((k, v) ∷ d) = (lookup k d ≡ none) × IsDict d

  pub insert-IsDict : (k : Text) (v : V) (d : Dict V) → IsDict d → IsDict (insert k v d)
  unfolding insert lookup
  insert-IsDict k v [] h = (refl, tt)
  insert-IsDict k v ((j, w) ∷ d) h =
      ground
        (arith, text_eq_iff j k, text_eq_iff k j, lookup-insert k j v d, insert-IsDict k v d h.1)

  pub lookup-retain-none :
      (p : Text → V → Bool) (k : Text) (d : Dict V)
      → lookup k d ≡ none
      → lookup k (retain p d) ≡ none
  unfolding lookup retain
  lookup-retain-none p k [] h = refl
  lookup-retain-none p k ((j, w) ∷ d) h = ground (arith, lookup-retain-none p k d)

  pub erase-IsDict : (k : Text) (d : Dict V) → IsDict d → IsDict (erase k d)
  unfolding erase
  erase-IsDict k [] h = tt
  erase-IsDict k ((j, w) ∷ d) h = ground (arith, lookup-erase k j d, erase-IsDict k d h.1)

  pub retain-IsDict : (p : Text → V → Bool) (d : Dict V) → IsDict d → IsDict (retain p d)
  unfolding retain
  retain-IsDict p [] h = tt
  retain-IsDict p ((j, w) ∷ d) h = ground (arith, lookup-retain-none p j d, retain-IsDict p d h.1)

  -- A value that passes a test.
  abbrev pub keep : (V → Bool) → Option V → Option V
  keep p none = none
  keep p (some v) = if p v then some v else none

  pub lookup-retain :
      (p : Text → V → Bool) (k : Text) (d : Dict V)
      → IsDict d
      → lookup k (retain p d) ≡ keep (p k) (lookup k d)
  unfolding lookup retain
  lookup-retain p k [] h = refl
  lookup-retain p k ((j, w) ∷ d) h = elim (Bool-cases (text_eq j k)) [
    | inl e ↦ ground (arith, text_eq_iff j k, lookup-retain-none p j d h.0)
    | inr ne ↦ ground (arith, lookup-retain p k d h.1)
  ]

pub ruleset dict_laws = (lookup-insert, lookup-erase)
