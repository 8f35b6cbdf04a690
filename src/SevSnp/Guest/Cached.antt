-- ===== src/SevSnp/Guest/Cached.antt =====
-- `SevSnpSilicon` (sentinel/sevsnp/guest.py): what a miner reads from its chip once. The device may
-- answer differently each time it is asked.
use sentinel_subnet.SevSnp.Report.{
  AttestationReportBlob, ReportParseError, chip_id_hex, measurement_hex, parse_report,
}
use sentinel_subnet.SevSnp.CertTable.{CertTableError, parse_cert_table}
use sentinel_subnet.SevSnp.Guest.{Device, GuestError, no_device, request_ext_report, request_report}
use sentinel_subnet.Base.Result.{
  Result, Result-cases, err, map_err, map_ok, ok, ok-injective, or_raise, ◌>>=◌,
}
use sentinel_subnet.Base.Text.{Text}
use sentinel_subnet.Base.Dict.{Dict, keep}
use sentinel_subnet.Base.{
  List, Option, Option-cases, [], ap, arith, inl, inr, none, refl, replicate, some, sym, ℕ, ◌∙◌,
  ◌∷◌, ◌≡◌, ◌⊎◌,
}

-- An exception that leaves a read
pub data SiliconError : Type 0 where
  not_answered : GuestError → SiliconError
  not_parsed : ReportParseError → SiliconError
  bad_table : CertTableError → SiliconError

-- The object, without its lock and the name of its device.
pub record SevSnpSilicon : Type 0 where
  pub vmpl : ℕ
  pub chip_id : Option Text
  pub certs : Option (Dict Text)
  pub measurement : Option Text

-- `__init__`, where the device is there
unfoldable pub new_silicon : Device → (vmpl : ℕ) → Result GuestError SevSnpSilicon
new_silicon device vmpl = do
  there ← or_raise device no_device
  ok (record { vmpl = vmpl; chip_id = none; certs = none; measurement = none })

-- `parse_report(request_report(bytes(64), …))`
unfoldable pub own_report : Device → (vmpl : ℕ) → Result SiliconError AttestationReportBlob
unfolding request_report parse_report
own_report device vmpl = do
  blob ← map_err not_answered (request_report device (replicate 64 0) vmpl)
  map_err not_parsed (parse_report blob)

-- `parse_cert_table` of what comes with a report. The certificates' buffer is somewhere.
unfoldable pub own_certificates : Device → (vmpl certs_addr : ℕ) → Result SiliconError (Dict Text)
unfolding request_ext_report parse_cert_table
own_certificates device vmpl certs_addr = do
  answer ← map_err not_answered (request_ext_report device (replicate 64 0) vmpl certs_addr)
  map_err bad_table (parse_cert_table answer.1)

-- A property that is computed at the first read that does not raise, and kept by `keep`.
unfoldable pub read_once {ℓ} :
    {A : Type ℓ} (kept : Option A) (fresh : Result SiliconError A) (keep : A → SevSnpSilicon)
    → SevSnpSilicon
    → Result SiliconError A × SevSnpSilicon
read_once (some a) fresh keep s = (ok a, s)
read_once none (ok a) keep s = (ok a, keep a)
read_once none (err e) keep s = (err e, s)

unfoldable pub read_chip_id : Device → SevSnpSilicon → Result SiliconError Text × SevSnpSilicon
unfolding read_once
read_chip_id device s =
    read_once s.chip_id (map_ok chip_id_hex (own_report device s.vmpl))
      (λ a. record s { chip_id = some a }) s

unfoldable pub read_measurement : Device → SevSnpSilicon → Result SiliconError Text × SevSnpSilicon
unfolding read_once
read_measurement device s =
    read_once s.measurement (map_ok measurement_hex (own_report device s.vmpl))
      (λ a. record s { measurement = some a }) s

unfoldable pub read_certificates :
    Device → (certs_addr : ℕ) → SevSnpSilicon → Result SiliconError (Dict Text) × SevSnpSilicon
unfolding read_once
read_certificates device certs_addr s =
    read_once s.certs (own_certificates device s.vmpl certs_addr) (λ a. record s { certs = some a })
      s

-- Any of the reads
pub data Read : Type 0 where
  of_chip_id of_measurement : Device → Read
  of_certificates : Device → (certs_addr : ℕ) → Read

-- The object after it
unfoldable pub after_read : Read → SevSnpSilicon → SevSnpSilicon
unfolding read_chip_id read_measurement read_certificates
after_read (of_chip_id device) s = (read_chip_id device s).1
after_read (of_measurement device) s = (read_measurement device s).1
after_read (of_certificates device certs_addr) s = (read_certificates device certs_addr s).1

unfoldable pub after_reads : List Read → SevSnpSilicon → SevSnpSilicon
unfolding after_read
after_reads [] s = s
after_reads (r ∷ rs) s = after_reads rs (after_read r s)

-- What has been read stays.
abbrev Keeps : SevSnpSilicon → SevSnpSilicon → Type 0
Keeps s t =
    ((a : Text) → s.chip_id ≡ some a → t.chip_id ≡ some a)
    × ((a : Text) → s.measurement ≡ some a → t.measurement ≡ some a)
    × ((a : Dict Text) → s.certs ≡ some a → t.certs ≡ some a)

after_read-Keeps : (r : Read) (s : SevSnpSilicon) → Keeps s (after_read r s)
unfolding after_read read_once
after_read-Keeps (of_chip_id device) s = ground arith
after_read-Keeps (of_measurement device) s = ground arith
after_read-Keeps (of_certificates device certs_addr) s = ground arith

after_reads-Keeps : (rs : List Read) (s : SevSnpSilicon) → Keeps s (after_reads rs s)
unfolding after_reads
after_reads-Keeps [] s = ((λ a h. h), (λ a h. h), (λ a h. h))
after_reads-Keeps (r ∷ rs) s =
    let first = after_read-Keeps r s in
    let rest = after_reads-Keeps rs (after_read r s) in
    (
      (λ a h. rest.0 a (first.0 a h)),
      (λ a h. rest.1 a (first.1 a h)),
      (λ a h. rest.2 a (first.2 a h)),
    )

module _ {A : Type 0} (kept : Option A) (fresh : Result SiliconError A) (keep : A → SevSnpSilicon)
    (s : SevSnpSilicon) where
  read_once-some : (a : A) → kept ≡ some a → read_once kept fresh keep s ≡ (ok a, s)
  unfolding read_once
  read_once-some a h = rw h refl

  read_once-kept :
      (get : SevSnpSilicon → Option A)
      → get s ≡ kept
      → ((a : A) → get (keep a) ≡ some a)
      → (a : A) → (read_once kept fresh keep s).0 ≡ ok a
      → get (read_once kept fresh keep s).1 ≡ some a
  unfolding read_once
  read_once-kept get here there a h = elim (Option-cases kept) [
    | inr (b, was) ↦
        let step = read_once-some b was in
        let same : b ≡ a = ok-injective (sym (ap (λ t. t.0) step) ∙ h) in
        ap (λ t. get t.1) step ∙ here ∙ was ∙ ap some same
    | inl first ↦ elim (Result-cases fresh) [
      | inl (b, got) ↦
          let step : read_once kept fresh keep s ≡ (ok b, keep b) = rw (first, got) refl in
          let same : b ≡ a = ok-injective (sym (ap (λ t. t.0) step) ∙ h) in
          ap (λ t. get t.1) step ∙ there b ∙ ap some same
      | inr (e, raised) ↦
          let step : read_once kept fresh keep s ≡ (err e, s) = rw (first, raised) refl in
          let wrong : ok a ≡ err e = sym h ∙ ap (λ t. t.0) step in cc wrong
    ]
  ]

-- A read gave a value, which a later one gives again with the object `t` left as it is, or it raised
-- and left the object `s` as it was.
abbrev pub Settled {ℓ} :
    {A : Type ℓ} (first again : Result SiliconError A × SevSnpSilicon) (s t : SevSnpSilicon)
    → Type ℓ
Settled {A = A} first again s t =
    ((a : A) × (first.0 ≡ ok a) × (again ≡ (ok a, t)))
    ⊎ ((e : SiliconError) × (first.0 ≡ err e) × (first.1 ≡ s))

read_once-Settled :
    {A : Type 0} (kept : Option A) (fresh : Result SiliconError A) (keep : A → SevSnpSilicon)
    (s t : SevSnpSilicon) (get : SevSnpSilicon → Option A) (fresh' : Result SiliconError A)
    (keep' : A → SevSnpSilicon)
    → get s ≡ kept
    → ((a : A) → get (keep a) ≡ some a)
    → ((a : A) → get (read_once kept fresh keep s).1 ≡ some a → get t ≡ some a)
    → Settled (read_once kept fresh keep s) (read_once (get t) fresh' keep' t) s t
unfolding read_once
read_once-Settled kept fresh keep s t get fresh' keep' here there stays =
    elim (Result-cases (read_once kept fresh keep s).0) [
      | inl (a, gave) ↦ inl (
        a,
        gave,
        read_once-some (get t) fresh' keep' t a
            (stays a (read_once-kept kept fresh keep s get here there a gave)),
      )
      | inr (e, raised) ↦ inr (e, raised, ground arith)
    ]

-- What a miner has once read from its chip it reads again, whatever else it reads between and whatever
-- the device answers later; a read that raises changes nothing.
pub read_again :
    (s : SevSnpSilicon) (rs : List Read) (device later : Device) (certs_addr other_addr : ℕ)
    → (let t = after_reads rs (read_chip_id device s).1 in
        Settled (read_chip_id device s) (read_chip_id later t) s t)
      × (let t = after_reads rs (read_measurement device s).1 in
          Settled (read_measurement device s) (read_measurement later t) s t)
      × (let t = after_reads rs (read_certificates device certs_addr s).1 in
          Settled
            (read_certificates device certs_addr s)
            (read_certificates later other_addr t)
            s
            t)
unfolding read_chip_id read_measurement read_certificates
read_again s rs device later certs_addr other_addr = (
  read_once-Settled _ _ _ s _ (λ u. u.chip_id) _ _ refl (λ b. refl) (after_reads-Keeps rs _).0,
  read_once-Settled _ _ _ s _ (λ u. u.measurement) _ _ refl (λ b. refl) (after_reads-Keeps rs _).1,
  read_once-Settled _ _ _ s _ (λ u. u.certs) _ _ refl (λ b. refl) (after_reads-Keeps rs _).2,
)
