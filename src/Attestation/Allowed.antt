-- ===== src/Attestation/Allowed.antt =====
-- The approved list after `approved_set`: which measurements it lets in.
use sentinel_subnet.Attestation.{Approved, approved_set, many, non_empty, normalised, one}
use sentinel_subnet.Base.Result.{ok}
use sentinel_subnet.Base.Text.{Text, lower, member, strip, text_eq, text_eq_iff, text_eq_refl}
use sentinel_subnet.Base.{
  Bool-cases, List, [], arith, false, inl, inr, refl, sym, true, ℕ, ◌||◌, ◌∷◌, ◌≡◌, ◌≢◌, ◌⊎◌,
}

-- The values that were given.
abbrev pub given : Approved → List Text
given (one v) = v ∷ []
given (many vs) = vs

-- `m` is one of the given values that are not blank, up to case and the white space around it.
pub data Allows (m : Text) : List Text → Type 0 where
  here : (v : Text) (vs : List Text) → strip v ≢ [] → lower (strip v) ≡ m → Allows m (v ∷ vs)
  there : (v : Text) (vs : List Text) → Allows m vs → Allows m (v ∷ vs)

member-cons : (m v : Text) (vs : List Text) → member m (v ∷ vs) ≡ (text_eq m v || member m vs)
unfolding member
member-cons m v vs = refl

member-nil : (m : Text) → member m [] ≡ false
unfolding member
member-nil m = refl

normalised-blank : (v : Text) (vs : List Text) → strip v ≡ [] → normalised (v ∷ vs) ≡ normalised vs
unfolding normalised
normalised-blank v vs e = rw (e, normalised)

kept :
    (v : Text) (c : ℕ) (s : Text) (vs : List Text)
    → strip v ≡ c ∷ s
    → normalised (v ∷ vs) ≡ lower (strip v) ∷ normalised vs
unfolding normalised
kept v c s vs e = rw (e, normalised)

normalised-kept :
    (v : Text) (vs : List Text)
    → strip v ≢ []
    → normalised (v ∷ vs) ≡ lower (strip v) ∷ normalised vs
normalised-kept v vs ne = split (strip v) refl
  where
    split : (s : Text) → strip v ≡ s → normalised (v ∷ vs) ≡ lower (strip v) ∷ normalised vs
    split [] e = absurd (ne e)
    split (c ∷ s) e = kept v c s vs e

nothing : (m : Text) → member m (normalised []) ≡ false
unfolding normalised member
nothing m = refl

non_empty-member : (l : List Text) (m : Text) → member m l ≡ true → non_empty l ≡ ok l
unfolding non_empty
non_empty-member [] m h = absurd (cc (member-nil m, h))
non_empty-member (v ∷ vs) m h = refl

non_empty-ok : (l r : List Text) → non_empty l ≡ ok r → r ≡ l
unfolding non_empty
non_empty-ok [] r h = cc h
non_empty-ok (v ∷ vs) r h = cc h

Text-cases : (s : Text) → (s ≡ []) ⊎ (s ≢ [])
Text-cases [] = inl refl
Text-cases (c ∷ s) = inr (λ e. cc)

pub member-normalised : (m : Text) (vs : List Text) → Allows m vs → member m (normalised vs) ≡ true
member-normalised m [] h = elim h [ ]
member-normalised m (v ∷ vs) (here _ _ ne e) =
    rw (normalised-kept v vs ne, member-cons, e, text_eq_refl m)
member-normalised m (v ∷ vs) (there _ _ h) = elim (Text-cases (strip v)) [
  | inl blank ↦ rw (normalised-blank v vs blank) (member-normalised m vs h)
  | inr ne ↦ rw (normalised-kept v vs ne, member-cons) (ground (arith, member-normalised m vs h))
]

pub member-Allows : (m : Text) (vs : List Text) → member m (normalised vs) ≡ true → Allows m vs
member-Allows m [] h = absurd (cc (nothing m, h))
member-Allows m (v ∷ vs) h = elim (Text-cases (strip v)) [
  | inl blank ↦ there v vs (member-Allows m vs (rw (normalised-blank v vs blank) at h))
  | inr ne ↦ elim (Bool-cases (text_eq m (lower (strip v)))) [
    | inl e ↦ here v vs ne (sym ((text_eq_iff m (lower (strip v))).0 e))
    | inr d ↦ there v vs (
        member-Allows m vs (
          ground (arith, normalised-kept v vs ne, member-cons m (lower (strip v)) (normalised vs))))
  ]
]

-- A list that lets something in is no `ValueError`.
pub approved_set-given :
    (a : Approved) (m : Text) → Allows m (given a) → approved_set a ≡ ok (normalised (given a))
unfolding approved_set
approved_set-given (one v) m h = non_empty-member _ m (member-normalised m (v ∷ []) h)
approved_set-given (many vs) m h = non_empty-member _ m (member-normalised m vs h)

pub approved_set-ok :
    (a : Approved) (allowed : List Text)
    → approved_set a ≡ ok allowed
    → allowed ≡ normalised (given a)
unfolding approved_set
approved_set-ok (one v) allowed h = non_empty-ok _ allowed h
approved_set-ok (many vs) allowed h = non_empty-ok _ allowed h
