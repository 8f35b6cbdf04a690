-- ===== src/Base/Json/Escape.antt =====
-- A JSON string with `ensure_ascii`, and that it can be read back.
use mathlib.Core.List.{append_assoc}
use sentinel_subnet.Base.{
  ltb, leb, ◌==◌, if◌then◌else◌, Bool-cases, All, ℕ, ◌+◌, ◌-◌, ◌*◌, ◌/◌, ◌%◌, ◌<◌, ◌≡◌, refl, sym,
  ap, ◌∙◌, ◌≢◌, inl, inr, ◌&&◌, Option, none, some, [], ◌∷◌, ◌++◌, arith,
}
use sentinel_subnet.Base.Text.{Text}

unfoldable pub hex_digit : ℕ → ℕ
hex_digit d = if ltb d 10 then b'0' + d else b'a' + (d - 10)

-- `\uXXXX`
unfoldable pub unicode_escape : ℕ → Text
unfolding hex_digit
unicode_escape c =
    92
    ∷ b'u'
    ∷ hex_digit (c / 4096 % 16)
    ∷ hex_digit (c / 256 % 16)
    ∷ hex_digit (c / 16 % 16)
    ∷ hex_digit (c % 16)
    ∷ []

-- A character outside printable ASCII; past the basic plane, a pair of surrogates.
unfoldable pub escape_other : ℕ → Text
unfolding unicode_escape
escape_other c =
    if c == 10
    then 92 ∷ b'n' ∷ []
    else if c == 13
    then 92 ∷ b'r' ∷ []
    else if c == 9
    then 92 ∷ b't' ∷ []
    else if c == 12
    then 92 ∷ b'f' ∷ []
    else if c == 8
    then 92 ∷ b'b' ∷ []
    else if ltb c 65536
    then unicode_escape c
    else unicode_escape (55296 + (c - 65536) / 1024) ++ unicode_escape (56320 + (c - 65536) % 1024)

unfoldable pub escape_char : ℕ → Text
unfolding escape_other
escape_char c =
    if c == 34
    then 92 ∷ 34 ∷ []
    else if c == 92
    then 92 ∷ 92 ∷ []
    else if leb 32 c && leb c 126
    then c ∷ []
    else escape_other c

unfoldable pub escaped : Text → Text
unfolding escape_char
escaped [] = []
escaped (c ∷ s) = escape_char c ++ escaped s

unfoldable pub quoted : Text → Text
unfolding escaped
quoted s = 34 ∷ (escaped s ++ (34 ∷ []))

hex_value : ℕ → ℕ
hex_value c = if ltb c 58 then c - 48 else c - 87

read_hex : Text → Option (ℕ × Text)
unfolding hex_value
read_hex (a ∷ b ∷ c ∷ d ∷ s) =
    some (((hex_value a * 16 + hex_value b) * 16 + hex_value c) * 16 + hex_value d, s)
read_hex _ = none

read_escape : ℕ → Text → Option (ℕ × Text)
unfolding read_hex
read_escape e s =
    if e == b'n'
    then some (10, s)
    else if e == b'r'
    then some (13, s)
    else if e == b't'
    then some (9, s)
    else if e == b'f'
    then some (12, s)
    else if e == b'b'
    then some (8, s)
    else if e == b'u'
    then read_hex s
    else some (e, s)

-- The character that a text begins with, and what comes after its escape; none at the closing
-- quotation mark.
read_char : Text → Option (ℕ × Text)
unfolding read_escape
read_char [] = none
read_char (c ∷ []) = none
read_char (c ∷ e ∷ s) =
    if c == 92 then read_escape e s else if c == 34 then none else some (c, e ∷ s)

hex_value-hex_digit : (d : ℕ) → d < 16 → hex_value (hex_digit d) ≡ d
unfolding hex_value hex_digit
hex_value-hex_digit d h = ground arith

four_digits :
    (c : ℕ) → c < 65536 → ((c / 4096 % 16 * 16 + c / 256 % 16) * 16 + c / 16 % 16) * 16 + c % 16 ≡ c
four_digits c h = omega arith

read_hex-escape :
    (c : ℕ) (r : Text)
    → c < 65536
    → read_hex (
        hex_digit (c / 4096 % 16)
        ∷ hex_digit (c / 256 % 16)
        ∷ hex_digit (c / 16 % 16)
        ∷ hex_digit (c % 16)
        ∷ r)
      ≡ some (c, r)
unfolding read_hex
read_hex-escape c r h = rw (
  hex_value-hex_digit (c / 4096 % 16) (omega arith),
  hex_value-hex_digit (c / 256 % 16) (omega arith),
  hex_value-hex_digit (c / 16 % 16) (omega arith),
  hex_value-hex_digit (c % 16) (omega arith),
  four_digits c h,
)

read_char-unicode_escape :
    (c : ℕ) (r : Text) → c < 65536 → read_char (unicode_escape c ++ r) ≡ some (c, r)
unfolding read_char read_escape unicode_escape
read_char-unicode_escape c r h = read_hex-escape c r h

short_escape-eq : (e : ℕ) (r : Text) → read_char (92 ∷ e ∷ r) ≡ read_escape e r
unfolding read_char
short_escape-eq e r = refl

read_char-escape_other :
    (c : ℕ) (r : Text) → c < 65536 → read_char (escape_other c ++ r) ≡ some (c, r)
unfolding escape_other read_escape
read_char-escape_other c r h = ground (
  arith,
  read_char-unicode_escape c r h,
  short_escape-eq b'n' r,
  short_escape-eq b'r' r,
  short_escape-eq b't' r,
  short_escape-eq b'f' r,
  short_escape-eq b'b' r,
)

-- Every character of the basic plane is read back from its escape.
read_char-escape_char :
    (c e : ℕ) (r : Text) → c < 65536 → read_char (escape_char c ++ (e ∷ r)) ≡ some (c, e ∷ r)
unfolding escape_char read_char read_escape
read_char-escape_char c e r h = elim (Bool-cases (c == 34)) [
  | inl q ↦ rw q (ground arith)
  | inr q ↦ elim (Bool-cases (c == 92)) [
    | inl b ↦ rw (q, b) (ground arith)
    | inr b ↦ elim (Bool-cases (leb 32 c && leb c 126)) [
      | inl p ↦ rw (q, b, p) (rw (b, q))
      | inr p ↦ rw (q, b, p) (read_char-escape_other c (e ∷ r) h)
    ]
  ]
]

append-ne-nil : (xs ys : Text) → ys ≢ [] → xs ++ ys ≢ []
append-ne-nil [] ys h = h
append-ne-nil (x ∷ xs) ys h = λ e. cc

read_char-escape_char_before :
    (c : ℕ) (r : Text) → c < 65536 → r ≢ [] → read_char (escape_char c ++ r) ≡ some (c, r)
read_char-escape_char_before c [] h ne = absurd (ne refl)
read_char-escape_char_before c (e ∷ r) h ne = read_char-escape_char c e r h

read_char-quote : (r : Text) → read_char (34 ∷ r) ≡ none
unfolding read_char
read_char-quote [] = refl
read_char-quote (c ∷ r) = refl

-- A text of the basic plane.
abbrev pub IsPlain : Text → Type 0
IsPlain s = All (λ c. c < 65536) s

read_char-escaped :
    (c : ℕ) (s r : Text)
    → c < 65536
    → read_char (escaped (c ∷ s) ++ (34 ∷ r)) ≡ some (c, escaped s ++ (34 ∷ r))
unfolding escaped
read_char-escaped c s r h = rw append_assoc (
    read_char-escape_char_before c (escaped s ++ (34 ∷ r)) h
      (append-ne-nil (escaped s) (34 ∷ r) (λ e. cc)))

escaped_nil : (r : Text) → escaped [] ++ r ≡ r
unfolding escaped
escaped_nil r = refl

escaped_prefix :
    (s t r u : Text)
    → IsPlain s
    → IsPlain t
    → escaped s ++ (34 ∷ r) ≡ escaped t ++ (34 ∷ u)
    → (s ≡ t) × (r ≡ u)
escaped_prefix [] [] r u hs ht e = (refl, cc (escaped_nil (34 ∷ r), escaped_nil (34 ∷ u)))
escaped_prefix [] (d ∷ t) r u hs ht e =
    absurd
      (cc (escaped_nil (34 ∷ r), ap read_char e, read_char-quote r, read_char-escaped d t u ht.0))
escaped_prefix (c ∷ s) [] r u hs ht e =
    absurd
      (cc (escaped_nil (34 ∷ u), ap read_char e, read_char-quote u, read_char-escaped c s r hs.0))
escaped_prefix (c ∷ s) (d ∷ t) r u hs ht e =
    let e' : some (c, escaped s ++ (34 ∷ r)) ≡ some (d, escaped t ++ (34 ∷ u)) =
      sym (read_char-escaped c s r hs.0) ∙ ap read_char e ∙ read_char-escaped d t u ht.0 in
    let (p, q) = escaped_prefix s t r u hs.1 ht.1 (cc e') in (cc (e', p), q)

-- A quoted text is a prefix code: what follows it does not change what was quoted.
pub quoted_prefix :
    (s t r u : Text) → IsPlain s → IsPlain t → quoted s ++ r ≡ quoted t ++ u → (s ≡ t) × (r ≡ u)
unfolding quoted
quoted_prefix s t r u hs ht e =
    escaped_prefix s t r u hs ht
      (sym (append_assoc (escaped s) (34 ∷ []) r) ∙ cc e ∙ append_assoc (escaped t) (34 ∷ []) u)
