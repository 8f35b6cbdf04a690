-- ===== src/Registry.antt =====
-- sentinel/registry.py: the lists of approved measurements. `json.loads`, `int` on a JSON value and the
-- decoding of UTF-8 are arguments, gathered in `Readers`: what follows holds whatever they read.
pub mod Manifest
pub mod Measured
pub mod Parse
pub mod Union
pub mod Source
use sentinel_subnet.Attestation.{Crypto}
use sentinel_subnet.Base.Json.{
  Fields, Items, Json, arr, bool, cons, dumps, end, field, float, int, nil, obj, str,
}
use sentinel_subnet.Base.Result.{Result, err, ok, or_raise, raise_if, ◌>>=◌, ◌>>◌}
use sentinel_subnet.Base.Text.{Text, codes, lower, member, text_eq}
use sentinel_subnet.Base.Int.{ltb_ℤ, pos, ℤ}
use sentinel_subnet.Base.{
  Bool, List, Option, [], any, false, given_or, if◌then◌else◌, leb, length, map, none, not, some,
  suc, true, ℕ, ◌&&◌, ◌++◌, ◌==◌, ◌||◌, ◌∷◌,
}

-- The messages of `RegistryError`; `crashed` is any other exception.
pub data RegistryError : Type 0 where
  bad_measurement invalid_json digest_mismatch unsupported_version malformed_entry : RegistryError
  approves_nothing does_not_fit unreadable_manifest nothing_in_effect : RegistryError
  not_https unfetched too_large no_measurements crashed : RegistryError

-- A field other than the measurement has whatever type the file gives it.
pub record ApprovedImage : Type 0 where
  pub measurement : Text
  pub platform : Json
  pub image : Json
  pub machine_type : Json
  pub observed_in : Json
  pub note : Json

pub record Registry : Type 0 where
  pub version : Json
  pub netuid : ℤ
  pub effective_from : ℤ
  pub images : List ApprovedImage
  pub source : Text

pub record Readers : Type 0 where
  pub loads : Text → Option Json
  pub int_of : Json → Option ℤ
  pub utf8 : Text → Option Text

abbrev pub current_version : ℕ
current_version = 1

-- `c in "0123456789abcdef"`
unfoldable pub is_hex : ℕ → Bool
is_hex c = (leb b'0' c && leb c b'9') || (leb b'a' c && leb c b'f')

-- `ApprovedImage.__post_init__`
unfoldable pub check_measurement : Text → Result RegistryError (Unit {0})
unfolding is_hex lower
check_measurement m =
    raise_if (not (length m == 96) || any (λ c. not (is_hex c)) (lower m)) bad_measurement

unfoldable pub items_length : Items → ℕ
items_length nil = 0
items_length (cons x xs) = suc (items_length xs)

unfoldable pub fields_length : Fields → ℕ
fields_length end = 0
fields_length (field k v fs) = suc (fields_length fs)

-- `len(m)` and `m.lower()` on what is no text: a list or an object has a length but no `lower`.
unfoldable pub measurement_of : Json → Result RegistryError Text
unfolding check_measurement items_length fields_length
measurement_of (str m) = do check_measurement m; ok m
measurement_of (arr xs) = if items_length xs == 96 then err crashed else err bad_measurement
measurement_of (obj fs) = if fields_length fs == 96 then err crashed else err bad_measurement
measurement_of _ = err malformed_entry

-- `payload.get(k)`
unfoldable pub get : Text → Fields → Option Json
unfolding text_eq
get k end = none
get k (field j v fs) = if text_eq j k then some v else get k fs

-- The dataclass has these fields, the last two with defaults.
abbrev pub image_fields : List Text
image_fields =
    codes "measurement"
    ∷ codes "platform"
    ∷ codes "image"
    ∷ codes "machine_type"
    ∷ codes "observed_in"
    ∷ codes "note"
    ∷ []

-- Every key names a field.
unfoldable pub known_fields : Fields → Bool
unfolding member
known_fields end = true
known_fields (field k v fs) = member k image_fields && known_fields fs

-- `ApprovedImage(**entry)`: a `TypeError` for an unknown or missing field, or for no object.
unfoldable pub approved_image : Json → Result RegistryError ApprovedImage
unfolding known_fields get measurement_of
approved_image (obj fs) = do
  raise_if (not (known_fields fs)) malformed_entry
  m ← or_raise (get (codes "measurement") fs) malformed_entry
  platform ← or_raise (get (codes "platform") fs) malformed_entry
  image ← or_raise (get (codes "image") fs) malformed_entry
  machine_type ← or_raise (get (codes "machine_type") fs) malformed_entry
  measurement ← measurement_of m
  ok (record {
    measurement = measurement;
    platform = platform;
    image = image;
    machine_type = machine_type;
    observed_in = given_or (get (codes "observed_in") fs) (str []);
    note = given_or (get (codes "note") fs) (str []);
  })
approved_image _ = err malformed_entry

unfoldable pub approved_images : Items → Result RegistryError (List ApprovedImage)
unfolding approved_image
approved_images nil = ok []
approved_images (cons x xs) = do i ← approved_image x; is ← approved_images xs; ok (i ∷ is)

-- `tuple(… for entry in payload["measurements"])`: the characters of a text and the keys of an object
-- are texts, which are no entries; other values cannot be iterated over.
unfoldable pub images_of : Json → Result RegistryError (List ApprovedImage)
unfolding approved_images
images_of (arr xs) = approved_images xs
images_of (str []) = ok []
images_of (obj end) = ok []
images_of _ = err malformed_entry

-- `version == CURRENT_VERSION`; `True` and `1.0` equal 1.
unfoldable pub is_current : Json → Bool
unfolding text_eq
is_current (int (pos n)) = n == current_version
is_current (bool b) = b
is_current (float t) = text_eq t (codes "1.0")
is_current _ = false

-- `{k: v for k, v in payload.items() if k != "effective_from"}`
unfoldable pub without_height : Fields → Fields
unfolding text_eq
without_height end = end
without_height (field k v fs) =
    let rest = without_height fs in
    if text_eq k (codes "effective_from") then rest else field k v rest

unfoldable pub canonical_bytes : Fields → Text
unfolding without_height dumps
canonical_bytes payload = dumps (obj (without_height payload))

unfoldable pub digest : Crypto → Fields → Text
unfolding canonical_bytes
digest c payload = c.sha256 (canonical_bytes payload)

-- What `json.loads` gives, where it is an object: of anything else the first use raises.
unfoldable pub payload_of : Json → Result RegistryError Fields
payload_of (obj fs) = ok fs
payload_of _ = err crashed

-- `expect_digest is not None and digest(payload) != expect_digest.lower()`
unfoldable pub off_digest : Crypto → Option Text → Fields → Bool
unfolding text_eq digest lower
off_digest c none payload = false
off_digest c (some expected) payload = not (text_eq (digest c payload) (lower expected))

-- An empty list of images is refused.
unfoldable pub some_images : List ApprovedImage → Result RegistryError (List ApprovedImage)
some_images [] = err approves_nothing
some_images (i ∷ is) = ok (i ∷ is)

-- `parse` on a text
unfoldable pub parse :
    Crypto
    → Readers
    → (body : Text) → (expect_digest : Option Text) → (effective_from : ℤ)
    → Result RegistryError Registry
unfolding off_digest get is_current images_of some_images payload_of
parse c r body expect_digest effective_from = do
  json ← or_raise (r.loads body) invalid_json
  payload ← payload_of json
  raise_if (off_digest c expect_digest payload) digest_mismatch
  version ← or_raise (get (codes "version") payload) unsupported_version
  raise_if (not (is_current version)) unsupported_version
  entries ← or_raise (get (codes "measurements") payload) malformed_entry
  listed ← images_of entries
  images ← some_images listed
  given ← or_raise (get (codes "netuid") payload) crashed
  netuid ← or_raise (r.int_of given) crashed
  ok (record {
    version = version;
    netuid = netuid;
    effective_from = effective_from;
    images = images;
    source = body;
  })

-- `parse` on bytes
unfoldable pub parse_bytes :
    Crypto → Readers → Text → Option Text → ℤ → Result RegistryError Registry
unfolding parse
parse_bytes c r raw expect_digest effective_from = do
  body ← or_raise (r.utf8 raw) crashed
  parse c r body expect_digest effective_from

-- `Registry.measurements`
unfoldable pub measurements : Registry → List Text
unfolding lower
measurements r = map (λ i. lower i.measurement) r.images

unfoldable pub active_at : Registry → (block : ℕ) → Bool
unfolding ltb_ℤ
active_at r block = not (ltb_ℤ (pos block) r.effective_from)

-- The union of the lists in effect.
unfoldable pub union_at : List Registry → (block : ℕ) → List Text
unfolding measurements active_at
union_at [] block = []
union_at (r ∷ rs) block =
    let rest = union_at rs block in if active_at r block then measurements r ++ rest else rest

unfoldable pub approved_for : List Registry → (block : ℕ) → Result RegistryError (List Text)
unfolding union_at active_at
approved_for rs block = do
  raise_if (not (any (λ r. active_at r block) rs)) nothing_in_effect
  ok (union_at rs block)
