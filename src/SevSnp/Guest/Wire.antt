-- ===== src/SevSnp/Guest/Wire.antt =====
-- The structures that cross the device (sentinel/sevsnp/guest.py).
use native.Mathlib.Nat.{pow-suc}
use sentinel_subnet.SevSnp.Report.{report_size}
use sentinel_subnet.SevSnp.Guest.{firmware_status, parse_response, short_report, to_le}
use sentinel_subnet.Base.Result.{err, ok}
use sentinel_subnet.Base.Text.{Text}
use sentinel_subnet.Base.Bytes.{concat, from_le, length-concat, slice, slice-field, total}
use sentinel_subnet.Base.{
  List, [], ap, arith, false, if◌then◌else◌, length, ltb, refl, suc, zero, ℕ, ◌+◌, ◌/◌, ◌<◌, ◌==◌,
  ◌^◌, ◌∙◌, ◌∷◌, ◌≡◌,
}

div_lt : (n w : ℕ) → n < 256 ^ suc w → n / 256 < 256 ^ w
div_lt n w h = omega (arith, pow-suc 256 w)

-- Numbers that fit are read back from their little-endian bytes.
pub from_le-to_le : (w n : ℕ) → n < 256 ^ w → from_le (to_le w n) ≡ n
unfolding from_le to_le
from_le-to_le zero n h = omega arith
from_le-to_le (suc w) n h =
    let small : n / 256 < 256 ^ w = div_lt n w h in
    rw (from_le-to_le w (n / 256) small) (omega arith)

length-to_le : (w n : ℕ) → length (to_le w n) ≡ w
unfolding to_le
length-to_le zero n = refl
length-to_le (suc w) n = ap suc (length-to_le w (n / 256))

-- The firmware's answer, field by field.
abbrev pub response : (status size : ℕ) (reserved report rest : Text) → List Text
response status size reserved report rest =
    to_le 4 status ∷ to_le 4 size ∷ reserved ∷ report ∷ rest ∷ []

module _ (status size : ℕ) (reserved report rest : Text) (small : status < 2 ^ 32)
    (fits : size < 2 ^ 32) (gap : length reserved ≡ 24) (whole : length report ≡ report_size) where
  abbrev resp : Text
  resp = concat (response status size reserved report rest)

  resp-length : length resp ≡ total (response status size reserved report rest)
  resp-length = length-concat (response status size reserved report rest)

  status_field : from_le (slice resp 0 4) ≡ status
  status_field =
      ap from_le (
        slice-field (response status size reserved report rest) 0 (to_le 4 status) 0 4 refl refl
          (omega (arith, length-to_le 4 status)))
      ∙ from_le-to_le 4 status small

  size_field : from_le (slice resp 4 8) ≡ size
  size_field =
      ap from_le (
        slice-field (response status size reserved report rest) 1 (to_le 4 size) 4 8 refl
          (omega (arith, length-to_le 4 status)) (omega (arith, length-to_le 4 size)))
      ∙ from_le-to_le 4 size fits

  report_field : slice resp 32 (32 + report_size) ≡ report
  report_field =
      slice-field (response status size reserved report rest) 3 report 32 (32 + report_size) refl
        (omega (arith, length-to_le 4 status, length-to_le 4 size)) (omega arith)

  long : ltb (length resp) (32 + report_size) ≡ false
  long = ground (arith, resp-length, length-to_le 4 status, length-to_le 4 size)

  -- From the firmware's answer the report is taken exactly as it stands behind the 32 bytes of
  -- header, if the status is 0 and the stated size is enough; any other status is reported, and a
  -- stated size that is too small is refused.
  pub parse_response-response :
      parse_response (concat (response status size reserved report rest)) ≡ (
        if status == 0
        then (if ltb size report_size then err short_report else ok report)
        else err (firmware_status status))
  unfolding parse_response
  parse_response-response = rw (long, status_field, size_field, report_field) (ground arith)
