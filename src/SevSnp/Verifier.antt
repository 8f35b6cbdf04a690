-- ===== src/SevSnp/Verifier.antt =====
-- sentinel/sevsnp/verifier.py: the five checks of a hardware report. AMD's key service is a
-- parameter, a function, so that what the verifier keeps of the chain it fetched does not matter.
pub mod Verdict
use sentinel_subnet.Attestation.{
  Crypto, Failure, Refusal, refused, value_error, bad_hex, binding_mismatch, debug_permitted,
  malformed_report, measurement_mismatch, no_vcek, not_ecdsa, not_endorsed, signature_invalid,
  stale_tcb,
}
use sentinel_subnet.SevSnp.Report.{
  AttestationReportBlob, TcbVersion, chip_id_hex, der_signature, parse_report, signed_bytes,
}
use sentinel_subnet.SevSnp.Certs.{
  CertChain, KeyKind, Pki, elliptic_other, elliptic_p384, no_chain, verify_vcek,
}
use sentinel_subnet.SevSnp.Certs.Cache.{FetchError, rejected, unreadable}
use sentinel_subnet.Base.Result.{Result, err, map_err, ok, or_raise, raise_if, ◌>>=◌, ◌>>◌}
use sentinel_subnet.Base.Text.{Text, codes, member, text_eq}
use sentinel_subnet.Base.Bytes.{from_hex}
use sentinel_subnet.Base.{
  Bool, List, Option, false, if◌then◌else◌, length, ltb, none, not, replicate, some, take, true, ℕ,
  ◌%◌, ◌&&◌, ◌*◌, ◌++◌, ◌-◌, ◌/◌, ◌==◌, ◌^◌,
}

-- The floor of one product line: `SevSnpPolicy`'s keyword arguments.
pub record TcbFloor : Type 0 where
  pub min_bootloader : ℕ
  pub min_tee : ℕ
  pub min_snp : ℕ
  pub min_microcode : ℕ

abbrev pub no_floor : TcbFloor
no_floor = record { min_bootloader = 0; min_tee = 0; min_snp = 0; min_microcode = 0 }

-- `min_tcb_for`: `MIN_TCB` has Milan alone, with a floor of 0x1D for SNP.
unfoldable pub min_tcb_for : Text → TcbFloor
unfolding text_eq
min_tcb_for product =
    if text_eq product (codes "Milan") then record no_floor { min_snp = 0x1D } else no_floor

pub record SevSnpPolicy : Type 0 where
  -- Measurements, 48 bytes each.
  pub approved : List Text
  pub floor : TcbFloor
  pub open floor use *
  pub allow_debug : Bool

-- Bit 19 of the guest policy.
unfoldable pub debug_allowed_by : ℕ → Bool
debug_allowed_by policy = policy / 2 ^ 19 % 2 == 1

-- `SevSnpPolicy.check`
unfoldable pub check : SevSnpPolicy → AttestationReportBlob → Result Refusal (Unit {0})
unfolding member debug_allowed_by
check p report = do
  raise_if (not (member report.measurement p.approved)) measurement_mismatch
  let tcb = report.reported_tcb
  raise_if (ltb tcb.bootloader p.min_bootloader) stale_tcb
  raise_if (ltb tcb.tee p.min_tee) stale_tcb
  raise_if (ltb tcb.snp p.min_snp) stale_tcb
  raise_if (ltb tcb.microcode p.min_microcode) stale_tcb
  raise_if (not p.allow_debug && debug_allowed_by report.policy) debug_permitted

-- AMD's key service, by way of the cache on disk.
pub record Kds (Cert : Type 0) : Type 0 where
  pub fetch_cert_chain : Text → Result FetchError (CertChain Cert)
  pub fetch_vcek : (product chip_id_hex : Text) → TcbVersion → Result FetchError Cert

pub record SevSnpVerifier (Cert : Type 0) : Type 0 where
  pub product : Text
  pub policy : SevSnpPolicy
  pub chain : Option (CertChain Cert)
  pub offline : Bool

-- `expected.ljust(64, b"\x00")[:64]`
unfoldable pub pad64 : Text → Text
pad64 expected = take 64 (expected ++ replicate (64 - length expected) 0)

-- `expected_report_data is not None and report.report_data != expected`
unfoldable pub unbound : Option Text → Text → Bool
unfolding text_eq pad64
unbound none actual = false
unbound (some expected) actual = not (text_eq actual (pad64 expected))

-- `except CertificateError`, which a `ValueError` passes.
unfoldable pub refused_for : Refusal → FetchError → Failure
refused_for why (rejected e) = refused why
refused_for why unreadable = value_error

module _ {Cert Key : Type 0} (k : Pki Cert Key) (kds : Kds Cert) where
  unfoldable pub cert_chain : SevSnpVerifier Cert → Result FetchError (CertChain Cert)
  cert_chain v = elim v.chain [
    | some chain ↦ ok chain
    | none ↦ if v.offline then err (rejected no_chain) else kds.fetch_cert_chain v.product
  ]

  -- The certificate that was supplied, else the one that the key service has for the chip.
  unfoldable pub obtain_vcek :
      SevSnpVerifier Cert → AttestationReportBlob → Option Cert → Result Failure Cert
  unfolding chip_id_hex refused_for
  obtain_vcek v report given = elim given [
    | some vcek ↦ ok vcek
    | none ↦
        if v.offline
        then err (refused no_vcek)
        else map_err (refused_for no_vcek)
            (kds.fetch_vcek v.product (chip_id_hex report) report.reported_tcb)
  ]

  -- `verify_vcek(vcek, self.cert_chain())`
  unfoldable pub endorse : SevSnpVerifier Cert → Cert → Result FetchError (Unit {0})
  unfolding cert_chain
  endorse v vcek = do chain ← cert_chain v; map_err rejected (verify_vcek k vcek chain)

  -- `isinstance(key, ec.EllipticCurvePublicKey)`
  unfoldable pub is_elliptic : KeyKind → Bool
  is_elliptic elliptic_p384 = true
  is_elliptic elliptic_other = true
  is_elliptic _ = false

  unfoldable pub verify_signature : AttestationReportBlob → Cert → Result Failure (Unit {0})
  unfolding is_elliptic der_signature signed_bytes
  verify_signature report vcek = do
    let key = k.public_key vcek
    let (r, s) = der_signature report
    raise_if (not (is_elliptic (k.kind key))) (refused not_ecdsa)
    raise_if (not (k.ecdsa_valid key r s (signed_bytes report))) (refused signature_invalid)

  -- `SevSnpVerifier.verify`
  unfoldable pub verify_report :
      SevSnpVerifier Cert
      → (blob : Text) → (expected_report_data : Option Text) → (vcek : Option Cert)
      → Result Failure AttestationReportBlob
  unfolding unbound refused_for
  verify_report v blob expected given = do
    report ← map_err (λ _. refused malformed_report) (parse_report blob)
    vcek ← obtain_vcek v report given
    map_err (refused_for not_endorsed) (endorse v vcek)
    verify_signature report vcek
    map_err refused (check v.policy report)
    raise_if (unbound expected report.report_data) (refused binding_mismatch)
    ok report

  unfoldable pub verify_signed_message :
      Crypto
      → SevSnpVerifier Cert
      → (message report_hex : Text) → Option Cert
      → Result Failure AttestationReportBlob
  verify_signed_message c v message report_hex given = do
    blob ← or_raise (from_hex report_hex) (refused bad_hex)
    verify_report v blob (some (c.sha512 message)) given
