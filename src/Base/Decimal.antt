-- ===== src/Base/Decimal.antt =====
-- `str(n)` and `int(s)` on the decimal digits of a natural number.
use sentinel_subnet.Base.{
  ltb, leb, if◌then◌else◌, Bool-cases, all, ℕ, zero, suc, ◌+◌, ◌-◌, ◌*◌, ◌/◌, ◌%◌, ◌<◌, ◌≡◌, refl,
  ap, ◌∙◌, ◌≢◌, inl, inr, Bool, true, ◌&&◌, Option, none, some, [], ◌∷◌, arith,
}
use sentinel_subnet.Base.Text.{Text}

unfoldable pub is_digit : ℕ → Bool
is_digit c = leb b'0' c && leb c b'9'

-- The digits of `n`, the lowest last, before `acc`; the fuel is more than `n`.
unfoldable pub digits_before : ℕ → ℕ → Text → Text
digits_before zero n acc = acc
digits_before (suc f) n acc =
    let rest = digits_before f (n / 10) ((b'0' + n % 10) ∷ acc) in
    if ltb n 10 then (b'0' + n) ∷ acc else rest

-- `str(n)`
unfoldable pub decimal : ℕ → Text
unfolding digits_before
decimal n = digits_before (suc n) n []

-- The number that a row of digits continues.
unfoldable pub value_from : ℕ → Text → ℕ
value_from a [] = a
value_from a (c ∷ s) = value_from (a * 10 + (c - b'0')) s

-- `int(s)` on a text of ASCII digits; anything else is a `ValueError`. Signs, white space and
-- underscores, which Python reads too, do not occur in what the program writes.
unfoldable pub parse_nat : Text → Option ℕ
unfolding is_digit value_from
parse_nat [] = none
parse_nat (c ∷ s) = if all is_digit (c ∷ s) then some (value_from 0 (c ∷ s)) else none

value_from-digits_before :
    (f n : ℕ) (acc : Text) → n < f → value_from 0 (digits_before f n acc) ≡ value_from n acc
unfolding value_from digits_before
value_from-digits_before zero n acc h = elim h [ ]
value_from-digits_before (suc f) n acc h = elim (Bool-cases (ltb n 10)) [
  | inl small ↦ rw small (ap (λ k. value_from k acc) (omega arith))
  | inr big ↦ rw big (
      value_from-digits_before f (n / 10) ((b'0' + n % 10) ∷ acc) (ground arith)
      ∙ ap (λ k. value_from k acc) (omega arith))
]

all_digits :
    (f n : ℕ) (acc : Text)
    → n < f
    → all is_digit acc ≡ true
    → all is_digit (digits_before f n acc) ≡ true
unfolding is_digit digits_before
all_digits zero n acc h p = elim h [ ]
all_digits (suc f) n acc h p = elim (Bool-cases (ltb n 10)) [
  | inl small ↦ ground arith
  | inr big ↦ rw big (all_digits f (n / 10) ((b'0' + n % 10) ∷ acc) (ground arith) (ground arith))
]

digits_before-ne-nil : (f n : ℕ) (acc : Text) → n < f → digits_before f n acc ≢ []
unfolding digits_before
digits_before-ne-nil zero n acc h = elim h [ ]
digits_before-ne-nil (suc f) n acc h = elim (Bool-cases (ltb n 10)) [
  | inl small ↦ rw small (λ e. cc)
  | inr big ↦ rw big (digits_before-ne-nil f (n / 10) ((b'0' + n % 10) ∷ acc) (ground arith))
]

pub decimal-all_digits : (n : ℕ) → all is_digit (decimal n) ≡ true
unfolding decimal
decimal-all_digits n = all_digits (suc n) n [] (omega arith) refl

-- Reading back what was printed gives the number.
pub parse_nat-decimal : (n : ℕ) → parse_nat (decimal n) ≡ some n
unfolding decimal parse_nat
parse_nat-decimal n =
    step (digits_before (suc n) n []) (digits_before-ne-nil (suc n) n [] (omega arith))
      (all_digits (suc n) n [] (omega arith) refl)
      (value_from-digits_before (suc n) n [] (omega arith))
  where
    step : (s : Text) → s ≢ [] → all is_digit s ≡ true → value_from 0 s ≡ n → parse_nat s ≡ some n
    step [] ne d v = absurd (ne refl)
    step (c ∷ s) ne d v = rw d (ap some v)
