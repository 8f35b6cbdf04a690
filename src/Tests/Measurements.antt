-- ===== src/Tests/Measurements.antt =====
-- The registry's theorems at concrete inputs.
use sentinel_subnet.Attestation.{Crypto}
use sentinel_subnet.Base.Json.{
  Fields, Json, arr, commas, cons, dump_fields, dump_items, dumps, end, field, insert_sorted, int,
  nil, obj, print_entries, print_int, str, text_leb,
}
use sentinel_subnet.Registry.{
  Readers, Registry, active_at, approved_image, approved_images, canonical_bytes, check_measurement,
  digest, get, images_of, is_current, is_hex, known_fields, measurement_of, off_digest, parse,
  parse_bytes, payload_of, some_images, without_height,
}
use sentinel_subnet.Registry.Parse.{parse_sound}
use sentinel_subnet.Registry.Manifest.{head_line, manifest_line}
use sentinel_subnet.Registry.Source.{
  Found, RegistrySource, chain_trouble, no_manifest, digest_of, fetch, is_known, json_digest,
  manifest, new_source, promote, refresh, take_over,
}
use sentinel_subnet.Registry.Source.Switch.{cache_survives}
use sentinel_subnet.Registry.Source.Rounds.{Poll}
use sentinel_subnet.Tests.Fixtures.{plain_crypto}
use sentinel_subnet.Base.Json.Escape.{escape_char, escape_other, escaped, quoted}
use sentinel_subnet.Registry.Measured.{IsMeasurement}
use sentinel_subnet.Base.Result.{ok}
use sentinel_subnet.Base.Text.{
  Text, codes, is_space, lower, lower_char, lower_idem, member, starts_with, text_eq,
}
use sentinel_subnet.Base.Int.{ltb_ℤ, pos, ℤ}
use sentinel_subnet.Base.Decimal.{decimal, digits_before}
use sentinel_subnet.Base.{
  All, Option, [], all, false, if◌then◌else◌, none, not, refl, replicate, some, true, ◌∷◌, ◌≡◌, ◌≢◌,
}

-- A digest in lower case.
abbrev lower_crypto : Crypto
lower_crypto = record plain_crypto { sha256 = lower }

abbrev entry : Fields
entry = field (codes "measurement") (str (replicate 96 b'A')) (
    field (codes "platform") (str (codes "sev-snp")) (
      field (codes "image") (str (codes "v1"))
        (field (codes "machine_type") (str (codes "n2d")) end)))

abbrev payload : Fields
payload = field (codes "version") (int (pos 1)) (
    field (codes "netuid") (int (pos 7))
      (field (codes "measurements") (arr (cons (obj entry) nil)) end))

abbrev other : Fields
other = field (codes "version") (int (pos 1)) (
    field (codes "netuid") (int (pos 8))
      (field (codes "measurements") (arr (cons (obj entry) nil)) end))

abbrev int_value : Json → Option ℤ
int_value (int n) = some n
int_value _ = none

-- Two files.
abbrev pub readers : Readers
readers = record {
  loads = λ body.
      if text_eq body (codes "file")
      then some (obj payload)
      else if text_eq body (codes "copy")
      then some (obj other)
      else none;
  int_of = int_value;
  utf8 = some;
}

abbrev listed : Registry
listed = record {
  version = int (pos 1);
  netuid = pos 7;
  effective_from = pos 100;
  images =
      record {
        measurement = replicate 96 b'A';
        platform = str (codes "sev-snp");
        image = str (codes "v1");
        machine_type = str (codes "n2d");
        observed_in = str [];
        note = str [];
      }
      ∷ [];
  source = codes "file";
}

accepted : parse lower_crypto readers (codes "file") none (pos 100) ≡ ok listed
unfolding parse off_digest get is_current images_of some_images payload_of approved_images
    approved_image known_fields measurement_of check_measurement is_hex lower lower_char member
    text_eq
accepted = refl

lower_digest : (m : Text) → lower (lower_crypto.sha256 m) ≡ lower_crypto.sha256 m
lower_digest m = lower_idem m

parse_sound_example :
    (p : Fields) × (readers.loads (codes "file") ≡ some (obj p))
    × ((d : Text) → none ≡ some d → digest lower_crypto p ≡ lower d)
    × (listed.images ≢ [])
    × All (λ i. IsMeasurement i.measurement) listed.images
    × (pos 100 ≡ pos 100)
    × (codes "file" ≡ codes "file")
parse_sound_example = parse_sound lower_crypto readers (codes "file") none (pos 100) listed accepted

abbrev published : Text
published = codes "sentinel-measurements v1 eff=6500 sha256=abCD"

publishes :
    manifest_line (codes "abCD") 6500 (codes "https://host/list ")
    ≡ ok (published, codes "https://host/list ")
unfolding manifest_line head_line decimal digits_before
publishes = refl

a_word : all (λ k. not (is_space k)) (codes "abCD") ≡ true
unfolding is_space
a_word = refl

abbrev waiting : RegistrySource
waiting = record {
  fallback = codes "ff" ∷ [];
  stale_after = 86400;
  writable = true;
  active = none;
  pending = some listed;
  last_success = none;
  warned_stale = false;
  cache = none;
}

-- The chain fails, then a manifest points at no https address; in the third round there is no manifest.
abbrev in_trouble : Poll
in_trouble = record {
  refreshed_at = 1;
  server = λ url. none;
  found = chain_trouble;
  asked_at = 2;
  block = 98;
}

abbrev elsewhere : Poll
elsewhere = record in_trouble {
  found = manifest (pos 200) (codes "ee") (codes "http://host/list");
  block = 99;
}

abbrev third : Poll
third = record in_trouble { found = no_manifest; asked_at = 9; block = 100 }

in_effect : active_at listed 100 ≡ true
unfolding active_at ltb_ℤ
in_effect = refl

cache_survives_example :
    (new_source lower_crypto readers [] 86400 true
      (promote lower_crypto readers 100 waiting).cache).active
    ≡ some listed
cache_survives_example =
    cache_survives lower_crypto readers (codes "file") none (pos 100) listed waiting 100 86400 []
      true lower_digest accepted refl in_effect refl

-- Another list, for a later height.
abbrev server : Text → Option Text
server url = some (codes "copy")

abbrev found : Found
found = manifest (pos 200) (digest lower_crypto other) (codes "https://host/list")

abbrev newer : Registry
newer = record listed { netuid = pos 8; effective_from = pos 200; source = codes "copy" }

taken : (refresh lower_crypto readers 5 server found waiting).1.pending ≡ some newer
unfolding refresh take_over fetch starts_with is_known digest_of json_digest parse_bytes parse
    off_digest digest canonical_bytes without_height dumps dump_fields dump_items commas
    print_entries print_int insert_sorted text_leb quoted escaped escape_char escape_other decimal
    digits_before get is_current images_of some_images payload_of approved_images approved_image
    known_fields measurement_of check_measurement is_hex lower lower_char member text_eq
taken = refl
