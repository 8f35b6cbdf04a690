-- ===== src/Registry/Parse.antt =====
-- What a parsed list is, and that a cached copy is read back (sentinel/registry.py).
use sentinel_subnet.Attestation.{Crypto}
use sentinel_subnet.Base.Json.{Fields, Json, arr, bool, float, int, null, obj, str}
use sentinel_subnet.Registry.{
  ApprovedImage, Readers, Registry, canonical_bytes, crashed, digest, digest_mismatch, get,
  images_of, invalid_json, is_current, malformed_entry, off_digest, parse, payload_of, some_images,
  unsupported_version,
}
use sentinel_subnet.Registry.Measured.{AllMeasured, IsMeasurement, images_of-ok}
use sentinel_subnet.Base.Result.{
  >>=-eq-ok, ok, ok-injective, or_raise, or_raise-ok, raise_if, raise_if-ok,
}
use sentinel_subnet.Base.Text.{Text, codes, lower, text_eq_iff, text_eq_refl}
use sentinel_subnet.Base.Int.{ℤ}
use sentinel_subnet.Base.{
  All, List, Option, [], ap, arith, false, none, not, refl, some, subst, sym, true, ◌∙◌, ◌∷◌, ◌≡◌,
  ◌≢◌,
}

module _ (c : Crypto) (r : Readers) where
  -- What `parse` went through.
  record Parsed (body : Text) (expected : Option Text) (height : ℤ) (g : Registry) : Type 0 where
    json : Json
    read : r.loads body ≡ some json
    payload : Fields
    is_object : payload_of json ≡ ok payload
    on_digest : off_digest c expected payload ≡ false
    version_given : get (codes "version") payload ≡ some g.version
    version_current : is_current g.version ≡ true
    entries : Json
    entries_given : get (codes "measurements") payload ≡ some entries
    listed : List ApprovedImage
    images_listed : images_of entries ≡ ok listed
    images_kept : some_images listed ≡ ok g.images
    number : Json
    netuid_given : get (codes "netuid") payload ≡ some number
    netuid_read : r.int_of number ≡ some g.netuid
    height_kept : g.effective_from ≡ height
    source_kept : g.source ≡ body

  parse-Parsed :
      (body : Text) (expected : Option Text) (height : ℤ) (g : Registry)
      → parse c r body expected height ≡ ok g
      → Parsed body expected height g
  unfolding parse
  parse-Parsed body expected height g h =
      let (json, read, h₁) = >>=-eq-ok (or_raise (r.loads body) invalid_json) _ h in
      let (payload, is_object, h₂) = >>=-eq-ok (payload_of json) _ h₁ in
      let (u₀, on_digest, h₃) =
        >>=-eq-ok (raise_if (off_digest c expected payload) digest_mismatch) _ h₂ in
      let (version, given, h₄) =
        >>=-eq-ok (or_raise (get (codes "version") payload) unsupported_version) _ h₃ in
      let (u₁, current, h₅) =
        >>=-eq-ok (raise_if (not (is_current version)) unsupported_version) _ h₄ in
      let (entries, entered, h₆) =
        >>=-eq-ok (or_raise (get (codes "measurements") payload) malformed_entry) _ h₅ in
      let (listed, images_listed, h₇) = >>=-eq-ok (images_of entries) _ h₆ in
      let (images, kept, h₈) = >>=-eq-ok (some_images listed) _ h₇ in
      let (number, numbered, h₉) =
        >>=-eq-ok (or_raise (get (codes "netuid") payload) crashed) _ h₈ in
      let (netuid, counted, made) = >>=-eq-ok (or_raise (r.int_of number) crashed) _ h₉ in
      subst (Parsed body expected height) (ok-injective made) (record {
        json = json;
        read = or_raise-ok _ invalid_json read;
        payload = payload;
        is_object = is_object;
        on_digest = raise_if-ok _ digest_mismatch on_digest;
        version_given = or_raise-ok _ unsupported_version given;
        version_current = ground (arith, raise_if-ok _ unsupported_version current);
        entries = entries;
        entries_given = or_raise-ok _ malformed_entry entered;
        listed = listed;
        images_listed = images_listed;
        images_kept = kept;
        number = number;
        netuid_given = or_raise-ok _ crashed numbered;
        netuid_read = or_raise-ok _ crashed counted;
        height_kept = refl;
        source_kept = refl;
      })

  Parsed-parse :
      (body : Text) (expected : Option Text) (height : ℤ) (g : Registry)
      → Parsed body expected height g
      → parse c r body expected height ≡ ok g
  unfolding parse
  Parsed-parse body expected height g p =
      rw
        (
          p.read, p.is_object, p.on_digest, p.version_given, p.version_current, p.entries_given,
          p.images_listed, p.images_kept, p.netuid_given, p.netuid_read,
        )
        (λ i. ok (record g { effective_from = sym p.height_kept i; source = sym p.source_kept i }))

some_images-ok :
    (listed is : List ApprovedImage) → some_images listed ≡ ok is → (listed ≡ is) × (is ≢ [])
unfolding some_images
some_images-ok [] is h = cc h
some_images-ok (i ∷ listed) is h = let same = ok-injective h in (same, λ e. cc (same, e))

off_digest-on :
    (c : Crypto) (e : Option Text) (payload : Fields)
    → off_digest c e payload ≡ false
    → (expected : Text) → e ≡ some expected
    → digest c payload ≡ lower expected
unfolding off_digest
off_digest-on c none payload h expected p = cc p
off_digest-on c (some given) payload h expected p =
    let same : digest c payload ≡ lower given =
      (text_eq_iff (digest c payload) (lower given)).0 (ground arith) in
    cc (same, p)

off_digest_self :
    (c : Crypto) (payload : Fields)
    → ((m : Text) → lower (c.sha256 m) ≡ c.sha256 m)
    → off_digest c (some (digest c payload)) payload ≡ false
unfolding off_digest digest
off_digest_self c payload lowercase =
    rw (lowercase (canonical_bytes payload), text_eq_refl (c.sha256 (canonical_bytes payload))) refl

payload_of-ok : (j : Json) (payload : Fields) → payload_of j ≡ ok payload → j ≡ obj payload
unfolding payload_of
payload_of-ok (obj fs) payload h = ap obj (ok-injective h)
payload_of-ok null payload h = cc h
payload_of-ok (bool b) payload h = cc h
payload_of-ok (int n) payload h = cc h
payload_of-ok (float t) payload h = cc h
payload_of-ok (str s) payload h = cc h
payload_of-ok (arr xs) payload h = cc h

-- A list is accepted only if it reads as an object whose digest is the expected one where one is
-- expected, in either case; it approves at least one image, each measurement of 96 hexadecimal digits,
-- and it applies from the height that was given.
pub parse_sound :
    (c : Crypto) (r : Readers) (body : Text) (expected : Option Text) (height : ℤ) (g : Registry)
    → parse c r body expected height ≡ ok g
    → (payload : Fields) × (r.loads body ≡ some (obj payload))
      × ((d : Text) → expected ≡ some d → digest c payload ≡ lower d)
      × (g.images ≢ [])
      × All (λ i. IsMeasurement i.measurement) g.images
      × (g.effective_from ≡ height)
      × (g.source ≡ body)
parse_sound c r body expected height g h =
    let p = parse-Parsed c r body expected height g h in
    let (same, some_of_them) = some_images-ok p.listed g.images p.images_kept in
    (
      p.payload,
      p.read ∙ ap some (payload_of-ok p.json p.payload p.is_object),
      off_digest-on c expected p.payload p.on_digest,
      some_of_them,
      subst AllMeasured same (images_of-ok p.entries p.listed p.images_listed),
      p.height_kept,
      p.source_kept,
    )

-- A list that was accepted is accepted once more from the text that it keeps, under the digest of that
-- text and its own height, and is the same list: this is how the cache is read. Hexadecimal digests are
-- in lower case.
pub parse-reload :
    (c : Crypto) (r : Readers) (body : Text) (expected : Option Text) (height : ℤ) (g : Registry)
    → ((m : Text) → lower (c.sha256 m) ≡ c.sha256 m)
    → parse c r body expected height ≡ ok g
    → (payload : Fields) × (r.loads g.source ≡ some (obj payload))
      × (parse c r g.source (some (digest c payload)) g.effective_from ≡ ok g)
parse-reload c r body expected height g lowercase h =
    let p = parse-Parsed c r body expected height g h in
    let loaded = ap r.loads p.source_kept ∙ p.read in
    (
      p.payload,
      loaded ∙ ap some (payload_of-ok p.json p.payload p.is_object),
      Parsed-parse c r g.source (some (digest c p.payload)) g.effective_from g (record {
        json = p.json;
        read = loaded;
        payload = p.payload;
        is_object = p.is_object;
        on_digest = off_digest_self c p.payload lowercase;
        version_given = p.version_given;
        version_current = p.version_current;
        entries = p.entries;
        entries_given = p.entries_given;
        listed = p.listed;
        images_listed = p.images_listed;
        images_kept = p.images_kept;
        number = p.number;
        netuid_given = p.netuid_given;
        netuid_read = p.netuid_read;
        height_kept = refl;
        source_kept = refl;
      }),
    )
