-- ===== src/Chain/Commitment.antt =====
-- sentinel/chain.py: `read_manifest`, from the fields of a commitment to the manifest.
use sentinel_subnet.Registry.{does_not_fit}
use sentinel_subnet.Registry.Manifest.{head_line, manifest_line, parse_manifest}
use sentinel_subnet.Registry.Manifest.RoundTrip.{parse_manifest-manifest_line}
use sentinel_subnet.Base.Result.{>>=-eq-ok, err, ok, ok-injective, raise_if}
use sentinel_subnet.Base.Text.{Text, codes, is_space, lower, starts_with, strip, truthy}
use sentinel_subnet.Base.Dict.{Dict}
use sentinel_subnet.Base.Int.{pos, ℤ}
use sentinel_subnet.Base.Bytes.{IsBytes, from_hex, from_hex-to_hex, to_hex}
use sentinel_subnet.Base.{
  List, Option, [], all, ap, arith, drop, false, if◌then◌else◌, length, ltb, none, not, or_else,
  refl, some, true, ℕ, ◌++◌, ◌||◌, ◌∙◌, ◌∷◌, ◌≡◌, ◌≢◌,
}

-- One value of a field: bytes, a text, or anything else.
pub data Value : Type 0 where
  bytes : Text → Value
  text : Text → Value
  other : Value

-- A field of a commitment, in the shapes that the SDK hands back.
pub data CommitmentField : Type 0 where
  plain : Value → CommitmentField
  mapping : Dict Value → CommitmentField

head_filled :
    (reg_digest url head field : Text) (effective_from : ℕ)
    → manifest_line reg_digest effective_from url ≡ ok (head, field)
    → head ≢ []
unfolding manifest_line head_line
head_filled reg_digest url head field effective_from made empty =
    let (u, fits, kept) =
      >>=-eq-ok
        (raise_if (ltb 128 (length (head_line reg_digest effective_from)) || ltb 128 (length url))
          does_not_fit)
        _ made in
    let same : head_line reg_digest effective_from ≡ [] =
      ap (λ (m : Text × Text). m.0) (ok-injective kept) ∙ empty in
    cc same

module _ (decode : Text → Text) where
  -- `_from_hex`: `decode` is UTF-8 with replacement.
  unfoldable pub text_from_hex : Text → Text
  unfolding starts_with from_hex
  text_from_hex value =
      if starts_with value (codes "0x")
      then elim (from_hex (drop 2 value)) [ none ↦ value | some bs ↦ decode bs ]
      else value

  unfoldable pub value_text : Value → Option Text
  unfolding text_from_hex
  value_text (bytes bs) = some (decode bs)
  value_text (text s) = some (text_from_hex s)
  value_text other = none

  -- The first value of a mapping that is bytes or a text.
  unfoldable pub first_text : Dict Value → Option Text
  unfolding value_text
  first_text [] = none
  first_text ((k, v) ∷ vs) = or_else (value_text v) (first_text vs)

  -- `_commitment_text`
  unfoldable pub commitment_text : CommitmentField → Option Text
  unfolding value_text first_text
  commitment_text (plain v) = value_text v
  commitment_text (mapping vs) = first_text vs

  -- `[t for t in (_commitment_text(f) for f in fields) if t]`
  unfoldable pub texts_of : List CommitmentField → List Text
  unfolding commitment_text truthy
  texts_of [] = []
  texts_of (f ∷ fs) = elim (commitment_text f) [
    | some (k ∷ s) ↦ (k ∷ s) ∷ texts_of fs
    | _ ↦ texts_of fs
  ]

  -- A manifest, where the first two texts are one.
  unfoldable pub manifest_of : List Text → Option (ℤ × Text × Text)
  unfolding parse_manifest
  manifest_of (head ∷ url ∷ rest) = elim (parse_manifest head url) [
    | ok manifest ↦ some manifest
    | err e ↦ none
  ]
  manifest_of _ = none

  -- `read_manifest`, on the fields that the chain has for the publisher at the block that is asked for
  unfoldable pub read_manifest :
      (read : Option ℕ → Option (List CommitmentField)) (block : Option ℕ)
      → Option (ℤ × Text × Text)
  unfolding texts_of manifest_of
  read_manifest read block = elim (read block) [
    | none ↦ none
    | some fields ↦ manifest_of (texts_of fields)
  ]

  -- How a text that was published may come back: as its bytes or as a text that is no "0x", plain or
  -- as the one value of a mapping, or as "0x" and the hexadecimal form of its bytes.
  pub data Carries (t : Text) : Value → Type 0 where
    as_bytes : (bs : Text) → decode bs ≡ t → Carries t (bytes bs)
    as_text : starts_with t (codes "0x") ≡ false → Carries t (text t)
    as_hex : (bs : Text) → IsBytes bs → decode bs ≡ t → Carries t (text (codes "0x" ++ to_hex bs))

  pub data CarriesField (t : Text) : CommitmentField → Type 0 where
    alone : (v : Value) → Carries t v → CarriesField t (plain v)
    keyed : (k : Text) (v : Value) → Carries t v → CarriesField t (mapping ((k, v) ∷ []))

  Carries-text : (t : Text) (v : Value) → Carries t v → value_text v ≡ some t
  unfolding value_text
  Carries-text t v (as_bytes bs e) = rw e refl
  Carries-text t v (as_text bare) = rw bare refl
  Carries-text t v (as_hex bs b e) = rw (from_hex-to_hex bs b) (ap some e)

  CarriesField-text :
      (t : Text) (f : CommitmentField) → CarriesField t f → commitment_text f ≡ some t
  unfolding commitment_text
  CarriesField-text t f (alone v c) = Carries-text t v c
  CarriesField-text t f (keyed k v c) = rw (Carries-text t v c) refl

  texts_of-two :
      (head url : Text) (f g : CommitmentField)
      → CarriesField head f
      → CarriesField url g
      → head ≢ []
      → url ≢ []
      → texts_of (f ∷ g ∷ []) ≡ head ∷ url ∷ []
  unfolding texts_of
  texts_of-two [] url f g c d h u = absurd (h refl)
  texts_of-two (k ∷ s) [] f g c d h u = absurd (u refl)
  texts_of-two (k ∷ s) (j ∷ t) f g c d h u =
      ground (arith, CarriesField-text (k ∷ s) f c, CarriesField-text (j ∷ t) g d)

  read_found :
      (read : Option ℕ → Option (List CommitmentField)) (block : Option ℕ)
      (fields : List CommitmentField)
      → read block ≡ some fields
      → read_manifest read block ≡ manifest_of (texts_of fields)
  unfolding read_manifest
  read_found read block fields found = ground (arith, found)

  manifest_of-parsed :
      (head url : Text) (m : ℤ × Text × Text)
      → parse_manifest head url ≡ ok m
      → manifest_of (head ∷ url ∷ []) ≡ some m
  unfolding manifest_of
  manifest_of-parsed head url m parsed = ground (arith, parsed)

  -- What a publisher commits is what a validator reads, in whichever shape the SDK hands the two
  -- fields back: the height, the digest in lower case and the URL without white space around it, for
  -- a digest without white space and a URL that is not empty.
  pub read_manifest-published :
      (reg_digest url head field : Text) (effective_from : ℕ) (f g : CommitmentField)
      (read : Option ℕ → Option (List CommitmentField)) (block : Option ℕ)
      → all (λ k. not (is_space k)) reg_digest ≡ true
      → manifest_line reg_digest effective_from url ≡ ok (head, field)
      → field ≢ []
      → CarriesField head f
      → CarriesField field g
      → read block ≡ some (f ∷ g ∷ [])
      → read_manifest read block ≡ some (pos effective_from, lower reg_digest, strip url)
  read_manifest-published reg_digest url head field effective_from f g read block solid made filled
        c d found =
      read_found read block (f ∷ g ∷ []) found
      ∙ ap manifest_of (
          texts_of-two head field f g c d
            (head_filled reg_digest url head field effective_from made) filled)
      ∙ manifest_of-parsed head field _
          (parse_manifest-manifest_line reg_digest url head field effective_from solid made)
