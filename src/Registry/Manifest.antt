-- ===== src/Registry/Manifest.antt =====
-- What goes on chain: `manifest_line` and `parse_manifest` (sentinel/registry.py), with the methods of
-- `str` that they call.
pub mod RoundTrip
use mathlib.Core.Option.{map as on_value}
use sentinel_subnet.Registry.{RegistryError, does_not_fit, unreadable_manifest}
use sentinel_subnet.Base.Result.{Result, ok, or_raise, raise_if, ◌>>=◌, ◌>>◌}
use sentinel_subnet.Base.Text.{Text, codes, is_space, lower, strip}
use sentinel_subnet.Base.Dict.{Dict, insert, lookup}
use sentinel_subnet.Base.Int.{negsuc, pos, ℤ}
use sentinel_subnet.Base.Decimal.{decimal, is_digit, value_from}
use sentinel_subnet.Base.{
  Bool, List, Option, [], false, if◌then◌else◌, length, ltb, none, some, suc, true, zero, ℕ, ◌&&◌,
  ◌++◌, ◌==◌, ◌||◌, ◌∷◌,
}

-- `int(s)` after the sign: ASCII digits, with single underscores between them.
unfoldable pub ungroup : (after_digit : Bool) → Text → Option Text
unfolding is_digit
ungroup after_digit [] = if after_digit then some [] else none
ungroup after_digit (k ∷ s) =
    let digit = on_value (λ t. k ∷ t) (ungroup true s) in
    let underscore = ungroup false s in
    if is_digit k then digit else if k == b'_' && after_digit then underscore else none

unfoldable pub unsigned_int : Text → Option ℕ
unfolding ungroup value_from
unsigned_int s = on_value (value_from 0) (ungroup false s)

abbrev pub negated : ℕ → ℤ
negated zero = pos zero
negated (suc n) = negsuc n

unfoldable pub signed_int : Text → Option ℤ
unfolding unsigned_int
signed_int [] = none
signed_int (k ∷ s) =
    if k == b'-'
    then on_value negated (unsigned_int s)
    else if k == b'+'
    then on_value pos (unsigned_int s)
    else on_value pos (unsigned_int (k ∷ s))

-- `int(s)`
unfoldable pub int_text : Text → Option ℤ
unfolding signed_int strip
int_text s = signed_int (strip s)

-- `head.split()`: the words, with the one that is being read before.
unfoldable pub words_from : Text → Text → List Text
unfolding is_space
words_from [] [] = []
words_from (w ∷ ws) [] = (w ∷ ws) ∷ []
words_from [] (k ∷ s) =
    let rest = words_from [] s in
    let more = words_from (k ∷ []) s in if is_space k then rest else more
words_from (w ∷ ws) (k ∷ s) =
    let rest = words_from [] s in
    let more = words_from (w ∷ (ws ++ (k ∷ []))) s in if is_space k then (w ∷ ws) ∷ rest else more

-- `p.split("=", 1)`, where there is a "=".
unfoldable pub cut : Text → Option (Text × Text)
cut [] = none
cut (k ∷ s) =
    let rest = on_value (λ (e : Text × Text). (k ∷ e.0, e.1)) (cut s) in
    if k == b'=' then some ([], s) else rest

-- `dict(p.split("=", 1) for p in … if "=" in p)`, from the left
unfoldable pub parts_from : Dict Text → List Text → Dict Text
unfolding cut insert
parts_from d [] = d
parts_from d (p ∷ ps) = elim (cut p) [
  | none ↦ parts_from d ps
  | some (k, v) ↦ parts_from (insert k v d) ps
]

unfoldable pub parse_manifest : (head url : Text) → Result RegistryError (ℤ × Text × Text)
unfolding words_from parts_from lookup int_text lower strip
parse_manifest head url = do
  let parts = parts_from [] (words_from [] head)
  eff ← or_raise (lookup (codes "eff") parts) unreadable_manifest
  height ← or_raise (int_text eff) unreadable_manifest
  sha256 ← or_raise (lookup (codes "sha256") parts) unreadable_manifest
  ok (height, lower sha256, strip url)

unfoldable pub head_line : (reg_digest : Text) (effective_from : ℕ) → Text
unfolding decimal
head_line reg_digest effective_from =
    codes "sentinel-measurements v1 eff="
    ++ (decimal effective_from ++ (codes " sha256=" ++ reg_digest))

unfoldable pub manifest_line :
    (reg_digest : Text) (effective_from : ℕ) (url : Text) → Result RegistryError (Text × Text)
unfolding head_line
manifest_line reg_digest effective_from url = do
  let head = head_line reg_digest effective_from
  raise_if (ltb 128 (length head) || ltb 128 (length url)) does_not_fit
  ok (head, url)
