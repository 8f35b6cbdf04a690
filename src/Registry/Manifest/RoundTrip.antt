-- ===== src/Registry/Manifest/RoundTrip.antt =====
-- A published manifest is read back (sentinel/registry.py).
use mathlib.Core.Option.{map as on_value}
use mathlib.Core.List.{append-nil, append_assoc, reverse, reverse-cons, reverse-reverse}
use sentinel_subnet.Registry.{does_not_fit}
use sentinel_subnet.Registry.Manifest.{
  cut, head_line, int_text, manifest_line, parse_manifest, parts_from, signed_int, ungroup,
  unsigned_int, words_from,
}
use sentinel_subnet.Base.Result.{>>=-eq-ok, ok, ok-injective, raise_if}
use sentinel_subnet.Base.Text.{Text, codes, is_space, lower, lstrip, strip, text_eq}
use sentinel_subnet.Base.Dict.{insert, lookup}
use sentinel_subnet.Base.Int.{pos}
use sentinel_subnet.Base.Decimal.{
  decimal, decimal-all_digits, is_digit, parse_nat, parse_nat-decimal, value_from,
}
use sentinel_subnet.Base.{
  Bool, [], all, ap, arith, false, length, ltb, not, refl, some, subst, sym, true, ℕ, ◌++◌, ◌==◌,
  ◌||◌, ◌∙◌, ◌∷◌, ◌≡◌,
}

-- No white space.
abbrev pub IsWord : Text → Type 0
IsWord s = all (λ k. not (is_space k)) s ≡ true

words_from-word :
    (w : ℕ) (ws s rest : Text)
    → IsWord s
    → words_from (w ∷ ws) (s ++ (32 ∷ rest)) ≡ (w ∷ (ws ++ s)) ∷ words_from [] rest
unfolding words_from
words_from-word w ws [] rest h = ap (λ t. (w ∷ t) ∷ words_from [] rest) (sym (append-nil ws))
words_from-word w ws (k ∷ s) rest h =
    let letter : is_space k ≡ false = ground arith in
    let others : IsWord s = ground arith in
    rw (letter, words_from-word w (ws ++ (k ∷ [])) s rest others)
      (ap (λ t. (w ∷ t) ∷ words_from [] rest) (append_assoc ws (k ∷ []) s))

words_from-last : (w : ℕ) (ws s : Text) → IsWord s → words_from (w ∷ ws) s ≡ (w ∷ (ws ++ s)) ∷ []
unfolding words_from
words_from-last w ws [] h = ap (λ t. (w ∷ t) ∷ []) (sym (append-nil ws))
words_from-last w ws (k ∷ s) h =
    let letter : is_space k ≡ false = ground arith in
    let others : IsWord s = ground arith in
    rw (letter, words_from-last w (ws ++ (k ∷ [])) s others)
      (ap (λ t. (w ∷ t) ∷ []) (append_assoc ws (k ∷ []) s))

digit_no_space : (s : Text) → all is_digit s ≡ true → IsWord s
unfolding is_digit is_space
digit_no_space [] h = refl
digit_no_space (k ∷ s) h = ground (arith, digit_no_space s)

ungroup-digits :
    (b : Bool) (k : ℕ) (s : Text) → all is_digit (k ∷ s) ≡ true → ungroup b (k ∷ s) ≡ some (k ∷ s)
unfolding ungroup is_digit
ungroup-digits b k [] h = ground arith
ungroup-digits b k (j ∷ s) h = ground (arith, ungroup-digits true j s)

lstrip-word : (s : Text) → IsWord s → lstrip s ≡ s
unfolding lstrip
lstrip-word [] h = refl
lstrip-word (k ∷ s) h = ground arith

all-append : (P : ℕ → Bool) (s t : Text) → all P s ≡ true → all P t ≡ true → all P (s ++ t) ≡ true
all-append P [] t h g = g
all-append P (k ∷ s) t h g = ground (arith, all-append P s t)

reverse-IsWord : (s : Text) → IsWord s → IsWord (reverse s)
reverse-IsWord [] h = refl
reverse-IsWord (k ∷ s) h = rw (reverse-cons k s) (
    all-append (λ j. not (is_space j)) (reverse s) (k ∷ []) (reverse-IsWord s (ground arith))
      (ground arith))

strip-word : (s : Text) → IsWord s → strip s ≡ s
unfolding strip
strip-word s h =
    rw (lstrip-word s h, lstrip-word (reverse s) (reverse-IsWord s h)) (reverse-reverse s)

signed_int-parse_nat :
    (s : Text) (n : ℕ) → all is_digit s ≡ true → parse_nat s ≡ some n → signed_int s ≡ some (pos n)
unfolding signed_int unsigned_int parse_nat
signed_int-parse_nat [] n d h = cc h
signed_int-parse_nat (k ∷ s) n d h =
    let no_minus : (k == b'-') ≡ false = unfold is_digit in ground arith in
    let no_plus : (k == b'+') ≡ false = unfold is_digit in ground arith in
    let value : some (value_from 0 (k ∷ s)) ≡ some n = rw d at h in
    rw (no_minus, no_plus, ungroup-digits false k s d) (ap (on_value pos) value)

int_text-decimal : (n : ℕ) → int_text (decimal n) ≡ some (pos n)
unfolding int_text
int_text-decimal n =
    rw (strip-word (decimal n) (digit_no_space (decimal n) (decimal-all_digits n)))
      (signed_int-parse_nat (decimal n) n (decimal-all_digits n) (parse_nat-decimal n))

manifest_words :
    (eff d : Text)
    → IsWord eff
    → IsWord d
    → words_from [] (codes "sentinel-measurements v1 eff=" ++ (eff ++ (codes " sha256=" ++ d)))
      ≡ codes "sentinel-measurements"
        ∷ codes "v1"
        ∷ (codes "eff=" ++ eff)
        ∷ (codes "sha256=" ++ d)
        ∷ []
unfolding words_from is_space
manifest_words eff d e h =
    ap (λ t. codes "sentinel-measurements" ∷ codes "v1" ∷ t)
      (words_from-word b'e' (codes "ff=") eff (codes "sha256=" ++ d) e
        ∙ ap (λ t. (codes "eff=" ++ eff) ∷ t) (words_from-last b's' (codes "ha256=") d h))

head_parts :
    (d : Text) (n : ℕ)
    → IsWord d
    → parts_from [] (words_from [] (head_line d n))
      ≡ (codes "eff", decimal n) ∷ (codes "sha256", d) ∷ []
unfolding parts_from head_line cut insert text_eq
head_parts d n h =
    ap (parts_from [])
      (manifest_words (decimal n) d (digit_no_space (decimal n) (decimal-all_digits n)) h)

read_back :
    (d url : Text) (n : ℕ)
    → IsWord d
    → parse_manifest (head_line d n) url ≡ ok (pos n, lower d, strip url)
unfolding parse_manifest lookup text_eq
read_back d url n h = rw (head_parts d n h, int_text-decimal n) refl

-- What is published is what is read: the height, the digest in lower case, and the URL without white
-- space around it, for a digest without white space.
pub parse_manifest-manifest_line :
    (reg_digest url head field : Text) (effective_from : ℕ)
    → all (λ k. not (is_space k)) reg_digest ≡ true
    → manifest_line reg_digest effective_from url ≡ ok (head, field)
    → parse_manifest head field ≡ ok (pos effective_from, lower reg_digest, strip url)
unfolding parse_manifest manifest_line
parse_manifest-manifest_line reg_digest url head field effective_from h made =
    let (u, fits, kept) =
      >>=-eq-ok
        (raise_if (ltb 128 (length (head_line reg_digest effective_from)) || ltb 128 (length url))
          does_not_fit)
        _ made in
    subst
      (λ (m : Text × Text).
        parse_manifest m.0 m.1 ≡ ok (pos effective_from, lower reg_digest, strip url))
      (ok-injective kept) (read_back reg_digest url effective_from h)
