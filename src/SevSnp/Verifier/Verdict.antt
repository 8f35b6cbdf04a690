-- ===== src/SevSnp/Verifier/Verdict.antt =====
-- What an accepted hardware report proves (sentinel/sevsnp/verifier.py).
use sentinel_subnet.Attestation.{
  Crypto, bad_hex, binding_mismatch, malformed_report, not_endorsed, refused,
}
use sentinel_subnet.SevSnp.Report.{AttestationReportBlob, der_signature, parse_report, signed_bytes}
use sentinel_subnet.SevSnp.Certs.{CertChain, Pki, elliptic_p384, verify_vcek}
use sentinel_subnet.SevSnp.Certs.Cache.{rejected}
use sentinel_subnet.SevSnp.Certs.Anchor.{Anchored, Signed, verify_vcek-Anchored}
use sentinel_subnet.SevSnp.Verifier.{
  Kds, SevSnpPolicy, SevSnpVerifier, cert_chain, check, endorse, obtain_vcek, pad64, refused_for,
  unbound, verify_report, verify_signature, verify_signed_message,
}
use sentinel_subnet.Base.Result.{
  >>=-eq-ok, map_err, map_err-ok, ok, or_raise, or_raise-ok, raise_if, raise_if-ok,
}
use sentinel_subnet.Base.Text.{Text, member, text_eq_iff}
use sentinel_subnet.Base.Bytes.{from_hex}
use sentinel_subnet.Base.{
  Option, arith, false, length, none, refl, replicate, some, subst, take-append, true, ◌%◌, ◌-◌,
  ◌/◌, ◌^◌, ◌↔◌, ◌∙◌, ◌≡◌, ◌≤◌,
}

-- What a policy asks of a report.
pub record Meets (p : SevSnpPolicy) (r : AttestationReportBlob) : Type 0 where
  pub measured : member r.measurement p.approved ≡ true
  pub bootloader : p.min_bootloader ≤ r.reported_tcb.bootloader
  pub tee : p.min_tee ≤ r.reported_tcb.tee
  pub snp : p.min_snp ≤ r.reported_tcb.snp
  pub microcode : p.min_microcode ≤ r.reported_tcb.microcode
  pub no_debug : p.allow_debug ≡ false → r.policy / 2 ^ 19 % 2 ≡ 0

passed : (p : SevSnpPolicy) (r : AttestationReportBlob) → check p r ≡ ok tt → Meets p r
unfolding check
passed p r h = record {
  measured = ground arith;
  bootloader = ground arith;
  tee = ground arith;
  snp = ground arith;
  microcode = ground arith;
  no_debug = λ n. ground arith;
}

passes : (p : SevSnpPolicy) (r : AttestationReportBlob) → Meets p r → check p r ≡ ok tt
unfolding check
passes p r m = ground arith

-- A policy passes a report exactly when its measurement is approved, each of the four firmware
-- components is at or above its floor, and, unless debugging is allowed, the debug bit is clear.
pub check_iff : (p : SevSnpPolicy) (r : AttestationReportBlob) → (check p r ≡ ok tt) ↔ Meets p r
check_iff p r = (passed p r, passes p r)

unbound-bound :
    (e : Option Text) (a : Text) → unbound e a ≡ false → (d : Text) → e ≡ some d → a ≡ pad64 d
unfolding unbound
unbound-bound none a h d p = cc p
unbound-bound (some e) a h d p =
    let same : a ≡ pad64 e = (text_eq_iff a (pad64 e)).0 (ground arith) in cc (same, p)

pad64-whole : (d : Text) → length d ≡ 64 → pad64 d ≡ d
unfolding pad64
pad64-whole d n = take-append d (replicate (64 - length d) 0) 64 n

module _ {Cert Key : Type 0} (k : Pki Cert Key) (kds : Kds Cert) where
  -- A report that proved itself to a verifier, for the data that it was asked to be bound to.
  pub record Verdict (v : SevSnpVerifier Cert) (blob : Text) (expected : Option Text)
      (given : Option Cert) (report : AttestationReportBlob) : Type 0 where
    pub parsed : parse_report blob ≡ ok report
    pub vcek : Cert
    pub vcek_obtained : obtain_vcek k kds v report given ≡ ok vcek
    pub chain : CertChain Cert
    pub chain_used : cert_chain k kds v ≡ ok chain
    pub anchored : Anchored k chain
    pub vcek_signed : Signed k (k.public_key chain.ask) vcek
    pub vcek_kind : k.kind (k.public_key vcek) ≡ elliptic_p384
    pub signed :
        k.ecdsa_valid
          (k.public_key vcek)
          (der_signature report).0
          (der_signature report).1
          (signed_bytes report)
        ≡ true
    pub meets : Meets v.policy report
    pub bound : (d : Text) → expected ≡ some d → report.report_data ≡ pad64 d

  endorsed_by :
      (v : SevSnpVerifier Cert) (vcek : Cert)
      → endorse k kds v vcek ≡ ok tt
      → (chain : CertChain Cert) × (cert_chain k kds v ≡ ok chain)
        × (verify_vcek k vcek chain ≡ ok tt)
  unfolding endorse
  endorsed_by v vcek h =
      let (chain, used, valid) = >>=-eq-ok (cert_chain k kds v) _ h in
      (chain, used, map_err-ok rejected _ valid)

  signature_checked :
      (r : AttestationReportBlob) (vcek : Cert)
      → verify_signature k kds r vcek ≡ ok tt
      → k.ecdsa_valid (k.public_key vcek) (der_signature r).0 (der_signature r).1 (signed_bytes r)
        ≡ true
  unfolding verify_signature
  signature_checked r vcek h = ground arith

  -- A report is accepted only if it parses, its chip's certificate is endorsed by a chain that is
  -- anchored to the pinned root, the signature over its first 0x2A0 bytes is valid under that
  -- certificate's P-384 key, the policy passes it, and it carries the data it was asked to carry.
  pub verify_report-Verdict :
      (v : SevSnpVerifier Cert) (blob : Text) (expected : Option Text) (given : Option Cert)
      (report : AttestationReportBlob)
      → verify_report k kds v blob expected given ≡ ok report
      → Verdict v blob expected given report
  unfolding verify_report
  verify_report-Verdict v blob expected given report h =
      let (r, parsed, h₁) =
        >>=-eq-ok (map_err (λ _. refused malformed_report) (parse_report blob)) _ h in
      let (vcek, obtained, h₂) = >>=-eq-ok (obtain_vcek k kds v r given) _ h₁ in
      let (u₀, endorsed, h₃) =
        >>=-eq-ok (map_err (refused_for not_endorsed) (endorse k kds v vcek)) _ h₂ in
      let (u₁, signed, h₄) = >>=-eq-ok (verify_signature k kds r vcek) _ h₃ in
      let (u₂, checked, h₅) = >>=-eq-ok (map_err refused (check v.policy r)) _ h₄ in
      let (u₃, bound, h₆) =
        >>=-eq-ok (raise_if (unbound expected r.report_data) (refused binding_mismatch)) _ h₅ in
      let (chain, used, valid) =
        endorsed_by v vcek (map_err-ok (refused_for not_endorsed) _ endorsed) in
      let (anchored, vcek_signed, kind) = verify_vcek-Anchored k vcek chain valid in
      let same : r ≡ report = cc h₆ in
      subst (Verdict v blob expected given) same (record {
        parsed = map_err-ok (λ _. refused malformed_report) _ parsed;
        vcek = vcek;
        vcek_obtained = obtained;
        chain = chain;
        chain_used = used;
        anchored = anchored;
        vcek_signed = vcek_signed;
        vcek_kind = kind;
        signed = signature_checked r vcek signed;
        meets = passed v.policy r (map_err-ok refused _ checked);
        bound =
            unbound-bound expected r.report_data (raise_if-ok _ (refused binding_mismatch) bound);
      })

  -- With digests of 64 bytes: a report that is accepted as the signature over a message carries the SHA-512 digest of that
  -- message: one report is no signature over two messages whose digests differ.
  pub verify_signed_message-bound :
      (c : Crypto) (v : SevSnpVerifier Cert) (message report_hex : Text) (given : Option Cert)
      (report : AttestationReportBlob)
      → length (c.sha512 message) ≡ 64
      → verify_signed_message k kds c v message report_hex given ≡ ok report
      → (blob : Text) × (from_hex report_hex ≡ some blob)
        × Verdict v blob (some (c.sha512 message)) given report
        × (report.report_data ≡ c.sha512 message)
  unfolding verify_signed_message
  verify_signed_message-bound c v message report_hex given report n h =
      let (blob, read, h₁) = >>=-eq-ok (or_raise (from_hex report_hex) (refused bad_hex)) _ h in
      let verdict = verify_report-Verdict v blob (some (c.sha512 message)) given report h₁ in
      (
        blob,
        or_raise-ok _ (refused bad_hex) read,
        verdict,
        verdict.bound (c.sha512 message) refl ∙ pad64-whole (c.sha512 message) n,
      )
