-- ===== src/Base/Bytes.antt =====
-- Slices, little-endian numbers and hexadecimal texts of `bytes`.
use sentinel_subnet.Base.Json.Escape.{hex_digit}
use sentinel_subnet.Base.Text.{Text}
use sentinel_subnet.Base.{
  All, Bool, List, Option, [], any, ap, arith, drop, false, if◌then◌else◌, leb, length,
  length-append, none, not, refl, some, suc, take, take-append, zero, ℕ, ◌%◌, ◌&&◌, ◌*◌, ◌++◌, ◌+◌,
  ◌-◌, ◌/◌, ◌<◌, ◌==◌, ◌||◌, ◌∙◌, ◌∷◌, ◌≡◌,
}

-- `blob[start:stop]`
unfoldable pub slice : Text → ℕ → ℕ → Text
slice blob start stop = take (stop - start) (drop start blob)

-- `int.from_bytes(…, "little")`, and `struct.unpack("<I")`, `("<Q")` on four and eight bytes
unfoldable pub from_le : Text → ℕ
from_le [] = 0
from_le (b ∷ bs) = b + 256 * from_le bs

-- `any(blob)`
unfoldable pub any_byte : Text → Bool
any_byte bs = any (λ b. not (b == 0)) bs

-- `blob.hex()`
unfoldable pub to_hex : Text → Text
unfolding hex_digit
to_hex [] = []
to_hex (b ∷ bs) = hex_digit (b / 16) ∷ hex_digit (b % 16) ∷ to_hex bs

-- One hexadecimal digit, in either case.
unfoldable pub hex_value? : ℕ → Option ℕ
hex_value? c =
    if leb b'0' c && leb c b'9'
    then some (c - b'0')
    else if leb b'a' c && leb c b'f'
    then some (c - b'a' + 10)
    else if leb b'A' c && leb c b'F'
    then some (c - b'A' + 10)
    else none

-- The two digits of a byte, before the bytes that follow; `none` is a `ValueError`.
unfoldable pub push_byte : Option ℕ → Option ℕ → Option Text → Option Text
push_byte (some h) (some l) (some bs) = some ((h * 16 + l) ∷ bs)
push_byte _ _ _ = none

-- The white space of C, which `bytes.fromhex` skips between bytes.
abbrev pub is_blank : ℕ → Bool
is_blank c = (leb 9 c && leb c 13) || c == 32

unfoldable pub from_hex : Text → Option Text
unfolding hex_value? push_byte
from_hex [] = some []
from_hex (c ∷ []) = if is_blank c then some [] else none
from_hex (c ∷ d ∷ s) =
    let skipped = from_hex (d ∷ s) in
    let rest = from_hex s in
    if is_blank c then skipped else push_byte (hex_value? c) (hex_value? d) rest

pub hex_value?-hex_digit : (d : ℕ) → d < 16 → hex_value? (hex_digit d) ≡ some d
unfolding hex_value? hex_digit
hex_value?-hex_digit d h = ground arith

hex_digit-solid : (d : ℕ) → d < 16 → is_blank (hex_digit d) ≡ false
unfolding hex_digit
hex_digit-solid d h = ground arith

-- Bytes, each below 256.
abbrev pub IsBytes : Text → Type 0
IsBytes bs = All (λ b. b < 256) bs

-- Every string of bytes is read back from its hexadecimal form.
pub from_hex-to_hex : (bs : Text) → IsBytes bs → from_hex (to_hex bs) ≡ some bs
unfolding to_hex from_hex
from_hex-to_hex [] h = refl
from_hex-to_hex (b ∷ bs) h =
    rw
      (
        hex_digit-solid (b / 16) (omega arith),
        hex_value?-hex_digit (b / 16) (omega arith),
        hex_value?-hex_digit (b % 16) (omega arith),
        from_hex-to_hex bs h.1,
      )
      (ap (λ k. some (k ∷ bs)) (omega arith))

-- Consecutive fields.
abbrev pub concat : List Text → Text
concat [] = []
concat (x ∷ xs) = x ++ concat xs

abbrev pub total : List Text → ℕ
total [] = 0
total (x ∷ xs) = length x + total xs

drop_past : (xs ys : Text) (n : ℕ) → drop (length xs + n) (xs ++ ys) ≡ drop n ys
drop_past [] ys n = ap (λ k. drop k ys) (omega arith)
drop_past (x ∷ xs) ys n =
    let e : suc (length xs) + n ≡ suc (length xs + n) = omega arith in rw e (drop_past xs ys n)

drop-concat :
    (before after : List Text) → drop (total before) (concat (before ++ after)) ≡ concat after
drop-concat [] after = refl
drop-concat (x ∷ xs) after = drop_past x (concat (xs ++ after)) (total xs) ∙ drop-concat xs after

-- The slice between the end of the fields before and the end of `x` is `x`.
pub slice-concat :
    (before : List Text) (x : Text) (after : List Text) (start stop : ℕ)
    → total before ≡ start
    → start + length x ≡ stop
    → slice (concat (before ++ (x ∷ after))) start stop ≡ x
unfolding slice
slice-concat before x after start stop p q =
    rw (← p, drop-concat before (x ∷ after))
      (take-append x (concat after) (stop - total before) (omega arith))

-- The field with the number `n`.
abbrev pub get_elem? : List Text → ℕ → Option Text
get_elem? [] n = none
get_elem? (x ∷ xs) zero = some x
get_elem? (x ∷ xs) (suc n) = get_elem? xs n

split_at :
    (xs : List Text) (n : ℕ) (x : Text)
    → get_elem? xs n ≡ some x
    → xs ≡ take n xs ++ (x ∷ drop (suc n) xs)
split_at [] n x e = cc e
split_at (y ∷ xs) zero x e = cc e
split_at (y ∷ xs) (suc n) x e = let q = split_at xs n x e in cc q

-- The slice over the place of the field with the number `n` is that field.
pub slice-field :
    (xs : List Text) (n : ℕ) (x : Text) (start stop : ℕ)
    → get_elem? xs n ≡ some x
    → total (take n xs) ≡ start
    → start + length x ≡ stop
    → slice (concat xs) start stop ≡ x
slice-field xs n x start stop e p q =
    ap (λ ys. slice (concat ys) start stop) (split_at xs n x e)
    ∙ slice-concat (take n xs) x (drop (suc n) xs) start stop p q

pub length-concat : (xs : List Text) → length (concat xs) ≡ total xs
length-concat [] = refl
length-concat (x ∷ xs) = omega (arith, length-append x (concat xs), length-concat xs)
