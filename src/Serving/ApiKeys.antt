-- ===== src/Serving/ApiKeys.antt =====
-- sentinel/serving/apikeys.py: labelled key digests, with the scopes that each key may reach.
use sentinel_subnet.Attestation.{Crypto}
use sentinel_subnet.Registry.{is_hex}
use sentinel_subnet.Base.Result.{Result, ok, raise_if, ◌>>◌}
use sentinel_subnet.Base.Text.{Text, lower, text_eq, text_eq_iff}
use sentinel_subnet.Base.Dict.{Dict, lookup}
use sentinel_subnet.Base.{
  Bool, List, Option, [], all, any, arith, given_or, if◌then◌else◌, inl, length, none, not, some,
  true, ◌&&◌, ◌==◌, ◌∷◌, ◌≡◌, ◌⊎◌,
}

-- `ApiKeyError`
pub data ApiKeyError : Type 0 where
  not_a_digest : ApiKeyError

-- One value of the key file: its digest, as a text, and the scopes that an object lists.
pub record Entry : Type 0 where
  pub digest : Text
  pub scopes : List Text

pub record ApiKeyStore : Type 0 where
  pub scopes : Dict (Option (List Text))
  pub digests : Dict Text

-- `frozenset(scopes) if scopes else None`
unfoldable pub restriction : List Text → Option (List Text)
restriction [] = none
restriction (s ∷ ss) = some (s ∷ ss)

unfoldable pub is_digest : Text → Bool
unfolding is_hex lower
is_digest d = length d == 64 && all is_hex (lower d)

-- `{label: digest.lower() for …}`, and the scopes beside it; the labels of a file are distinct.
unfoldable pub lowered : Dict Entry → Dict Text
unfolding lower
lowered [] = []
lowered ((label, e) ∷ es) = (label, lower e.digest) ∷ lowered es

unfoldable pub restrictions : Dict Entry → Dict (Option (List Text))
unfolding restriction
restrictions [] = []
restrictions ((label, e) ∷ es) = (label, restriction e.scopes) ∷ restrictions es

-- `ApiKeyStore.__init__`
unfoldable pub new_store : Dict Entry → Result ApiKeyError ApiKeyStore
unfolding is_digest lowered restrictions
new_store entries = do
  raise_if (not (all (λ (e : Text × Entry). is_digest e.1.digest) entries)) not_a_digest
  ok (record { scopes = restrictions entries; digests = lowered entries })

-- The loop of `label_for`, with what was found before: the last match counts.
unfoldable pub find_label : (candidate : Text) → Option Text → Dict Text → Option Text
unfolding text_eq
find_label candidate found [] = found
find_label candidate found ((label, digest) ∷ ds) =
    find_label candidate (if text_eq candidate digest then some label else found) ds

unfoldable pub label_for : Crypto → ApiKeyStore → (presented : Text) → Option Text
unfolding find_label
label_for c store presented = find_label (c.sha256 presented) none store.digests

-- `None`, every scope, also for a label that is not there.
unfoldable pub scopes_for : ApiKeyStore → (label : Text) → Option (List Text)
unfolding lookup
scopes_for store label = given_or (lookup label store.scopes) none

find_label-digest :
    (candidate : Text) (found : Option Text) (ds : Dict Text) (label : Text)
    → find_label candidate found ds ≡ some label
    → (found ≡ some label)
      ⊎ (any (λ (e : Text × Text). text_eq e.0 label && text_eq candidate e.1) ds ≡ true)
unfolding find_label
find_label-digest candidate found [] label h = inl h
find_label-digest candidate found ((l, d) ∷ ds) label h =
    let rest =
      find_label-digest candidate (if text_eq candidate d then some l else found) ds label h in
    ground (arith, rest, text_eq_iff l label)

-- A presented key gets a label only if the store has the key's own digest under that label.
pub label_for-digest :
    (c : Crypto) (store : ApiKeyStore) (presented label : Text)
    → label_for c store presented ≡ some label
    → any (λ (e : Text × Text). text_eq e.0 label && text_eq (c.sha256 presented) e.1) store.digests
      ≡ true
unfolding label_for
label_for-digest c store presented label h =
    ground (arith, find_label-digest (c.sha256 presented) none store.digests label h)
