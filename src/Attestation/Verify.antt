-- ===== src/Attestation/Verify.antt =====
-- What a successful check says, and that an honest report passes it.
use sentinel_subnet.Attestation.{
  Approved, AttestationAgent, AttestationReport, Crypto, approved_set, attest, canonical, differs,
  unsigned, verify,
}
use sentinel_subnet.Attestation.Allowed.{
  Allows, approved_set-given, approved_set-ok, given, member-Allows, member-normalised,
}
use sentinel_subnet.Base.Result.{Result-cases, ok}
use sentinel_subnet.Base.Text.{Text, lower, member, strip, text_eq_iff, text_eq_refl}
use sentinel_subnet.Base.Int.{ltb_ℤ-le, ℤ, ◌≤ℤ◌}
use sentinel_subnet.Base.{List, Option, arith, false, inl, inr, none, refl, some, true, ◌↔◌, ◌≡◌}

-- What `verify` has to find in a report.
pub record Accepts (c : Crypto) (r : AttestationReport) (key : Text) (approved : Approved)
    (nonce : Text) (min_tcb : ℤ) (expected : Option Text) : Type 0 where
  pub key_read : c.is_key key ≡ true
  pub signed : c.ed25519_valid key (canonical r) r.signature ≡ true
  pub measured : Allows (lower (strip r.launch_measurement)) (given approved)
  pub level : min_tcb ≤ℤ r.tcb_level
  pub fresh : r.nonce ≡ nonce
  pub bound : (d : Text) → expected ≡ some d → r.report_data ≡ d

differs-bound : (e : Option Text) (a : Text) → differs e a ≡ false → (d : Text) → e ≡ some d → a ≡ d
differs-bound none a h d p = cc p
differs-bound (some e) a h d p = ground (arith, text_eq_iff a e)

bound-differs :
    (e : Option Text) (a : Text) → ((d : Text) → e ≡ some d → a ≡ d) → differs e a ≡ false
bound-differs none a h = refl
bound-differs (some e) a h = rw (h e refl, text_eq_refl)

module _ (c : Crypto) (r : AttestationReport) (key : Text) (approved : Approved) (nonce : Text)
    (min_tcb : ℤ) (expected : Option Text) where
  verify-Accepts :
      verify c r key approved nonce min_tcb expected ≡ ok tt
      → Accepts c r key approved nonce min_tcb expected
  unfolding verify
  verify-Accepts h = record {
    key_read = ground arith;
    signed = ground arith;
    measured = elim (Result-cases (approved_set approved)) [
      | inl (allowed, e) ↦
          member-Allows _ _ (rw (approved_set-ok approved allowed e) at (measured_in allowed e))
      | inr (f, e) ↦ absurd (ground arith)
    ];
    level = (ltb_ℤ-le _ _).0 (ground arith);
    fresh = ground (arith, text_eq_iff r.nonce nonce);
    bound = differs-bound expected r.report_data (ground arith);
  }
    where
      measured_in :
          (allowed : List Text)
          → approved_set approved ≡ ok allowed
          → member (lower (strip r.launch_measurement)) allowed ≡ true
      measured_in allowed e = ground arith

  Accepts-verify :
      Accepts c r key approved nonce min_tcb expected
      → verify c r key approved nonce min_tcb expected ≡ ok tt
  unfolding verify
  Accepts-verify a = rw (
    a.key_read,
    a.signed,
    approved_set-given approved _ a.measured,
    member-normalised _ _ a.measured,
    (ltb_ℤ-le _ _).1 a.level,
    a.fresh,
    text_eq_refl nonce,
    bound-differs expected r.report_data a.bound,
  )

-- A report is accepted exactly when the key can be read, the signature over all its fields is
-- valid under it, the measurement is one of the approved values up to case and surrounding white
-- space, the firmware level is not below the floor, the nonce is the expected one, and so is the
-- binding where one is expected.
pub verify_iff :
    (c : Crypto) (r : AttestationReport) (key : Text) (approved : Approved) (nonce : Text)
    (min_tcb : ℤ) (expected : Option Text)
    → (verify c r key approved nonce min_tcb expected ≡ ok tt)
      ↔ Accepts c r key approved nonce min_tcb expected
verify_iff c r key approved nonce min_tcb expected = (
  verify-Accepts c r key approved nonce min_tcb expected,
  Accepts-verify c r key approved nonce min_tcb expected,
)

-- The signature is not among the signed bytes.
pub canonical-signature :
    (r : AttestationReport) (s : Text) → canonical (record r { signature = s }) ≡ canonical r
unfolding canonical
canonical-signature r s = refl

module _ {E : Type 0} (c : Crypto) (a : AttestationAgent E) (key : Text) (approved : Approved)
    (min_tcb : ℤ) where
  -- An agent on a chip whose signatures verify under `key`, that runs an approved image on firmware
  -- at or above the floor, makes a report for every nonce and binding that its chip signs, and
  -- that report is accepted for this nonce and this binding.
  pub verify-attest :
      (nonce data_bound signature : Text)
      → c.is_key key ≡ true
      → ((m s : Text) → a.silicon.sign m ≡ ok s → c.ed25519_valid key m s ≡ true)
      → Allows (lower (strip a.launch_measurement)) (given approved)
      → min_tcb ≤ℤ a.tcb_level
      → a.silicon.sign (canonical (unsigned a nonce data_bound)) ≡ ok signature
      → (r : AttestationReport) × (attest a nonce data_bound ≡ ok r)
        × (verify c r key approved nonce min_tcb (some data_bound) ≡ ok tt)
  unfolding attest unsigned
  verify-attest nonce data_bound signature key_read genuine measured level signed = (
    record (unsigned a nonce data_bound) { signature = signature },
    ground arith,
    Accepts-verify c _ key approved nonce min_tcb (some data_bound) (record {
      key_read = key_read;
      signed =
          rw (canonical-signature (unsigned a nonce data_bound) signature)
            (genuine _ signature signed);
      measured = measured;
      level = level;
      fresh = refl;
      bound = λ d e. cc e;
    }),
  )
