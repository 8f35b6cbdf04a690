-- ===== src/Registry/Measured.antt =====
-- What a list's entries have to be (`ApprovedImage`, sentinel/registry.py).
use sentinel_subnet.Base.Json.{
  Items, Json, arr, bool, cons, end, field, float, int, nil, null, obj, str,
}
use sentinel_subnet.Registry.{
  ApprovedImage, approved_image, approved_images, check_measurement, get, images_of, is_hex,
  known_fields, malformed_entry, measurement_of,
}
use sentinel_subnet.Base.Result.{>>=-eq-ok, ok, ok-injective, or_raise, raise_if}
use sentinel_subnet.Base.Text.{Text, codes, lower}
use sentinel_subnet.Base.{
  All, List, [], all, any, arith, false, length, not, refl, subst, true, ◌∷◌, ◌≡◌,
}

-- 96 hexadecimal digits, in either case.
pub record IsMeasurement (m : Text) : Type 0 where
  pub width : length m ≡ 96
  pub digits : all is_hex (lower m) ≡ true

not-any : (s : Text) → any (λ k. not (is_hex k)) s ≡ false → all is_hex s ≡ true
not-any [] h = refl
not-any (k ∷ s) h = ground (arith, not-any s)

check_measurement-ok : (m : Text) → check_measurement m ≡ ok tt → IsMeasurement m
unfolding check_measurement
check_measurement-ok m h = record {
  width = ground arith;
  digits = not-any (lower m) (ground arith);
}

measurement_of-ok : (j : Json) (m : Text) → measurement_of j ≡ ok m → IsMeasurement m
unfolding measurement_of
measurement_of-ok (str s) m h =
    let (u, checked, h₁) = >>=-eq-ok (check_measurement s) _ h in
    subst IsMeasurement (ok-injective h₁) (check_measurement-ok s checked)
measurement_of-ok (arr xs) m h = absurd (ground arith)
measurement_of-ok (obj fs) m h = absurd (ground arith)
measurement_of-ok null m h = cc h
measurement_of-ok (bool b) m h = cc h
measurement_of-ok (int n) m h = cc h
measurement_of-ok (float t) m h = cc h

approved_image-ok :
    (j : Json) (i : ApprovedImage) → approved_image j ≡ ok i → IsMeasurement i.measurement
unfolding approved_image
approved_image-ok (obj fs) i h =
    let (u, known, h₁) = >>=-eq-ok (raise_if (not (known_fields fs)) malformed_entry) _ h in
    let (m, given, h₂) = >>=-eq-ok (or_raise (get (codes "measurement") fs) malformed_entry) _ h₁ in
    let (a, given_a, h₃) = >>=-eq-ok (or_raise (get (codes "platform") fs) malformed_entry) _ h₂ in
    let (b, given_b, h₄) = >>=-eq-ok (or_raise (get (codes "image") fs) malformed_entry) _ h₃ in
    let (d, given_d, h₅) =
      >>=-eq-ok (or_raise (get (codes "machine_type") fs) malformed_entry) _ h₄ in
    let (measurement, measured, made) = >>=-eq-ok (measurement_of m) _ h₅ in
    subst (λ j. IsMeasurement j.measurement) (ok-injective made)
      (measurement_of-ok m measurement measured)
approved_image-ok null i h = cc h
approved_image-ok (bool b) i h = cc h
approved_image-ok (int n) i h = cc h
approved_image-ok (float t) i h = cc h
approved_image-ok (str s) i h = cc h
approved_image-ok (arr xs) i h = cc h

abbrev pub AllMeasured : List ApprovedImage → Type 0
AllMeasured = All (λ i. IsMeasurement i.measurement)

approved_images-ok :
    (xs : Items) (is : List ApprovedImage) → approved_images xs ≡ ok is → AllMeasured is
unfolding approved_images
approved_images-ok nil is h = subst AllMeasured (ok-injective h) tt
approved_images-ok (cons x xs) is h =
    let (i, first, h₁) = >>=-eq-ok (approved_image x) _ h in
    let (rest, others, made) = >>=-eq-ok (approved_images xs) _ h₁ in
    subst AllMeasured (ok-injective made)
      (approved_image-ok x i first, approved_images-ok xs rest others)

pub images_of-ok : (j : Json) (is : List ApprovedImage) → images_of j ≡ ok is → AllMeasured is
unfolding images_of
images_of-ok (arr xs) is h = approved_images-ok xs is h
images_of-ok (str []) is h = subst AllMeasured (ok-injective h) tt
images_of-ok (str (k ∷ s)) is h = cc h
images_of-ok (obj end) is h = subst AllMeasured (ok-injective h) tt
images_of-ok (obj (field k v fs)) is h = cc h
images_of-ok null is h = cc h
images_of-ok (bool b) is h = cc h
images_of-ok (int n) is h = cc h
images_of-ok (float t) is h = cc h
