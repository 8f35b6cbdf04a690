-- ===== src/Tests/Proofs.antt =====
-- The theorems on reports at concrete inputs.
use sentinel_subnet.Attestation.{
  AttestationAgent, AttestationReport, canonical, one, unsigned, verify,
}
use sentinel_subnet.Attestation.Allowed.{Allows, here}
use sentinel_subnet.Attestation.Verify.{Accepts, verify_iff}
use sentinel_subnet.Attestation.Canonical.{IsPlainReport, canonical-injective}
use sentinel_subnet.Tests.Fixtures.{plain_crypto}
use sentinel_subnet.Base.Result.{ok}
use sentinel_subnet.Base.Text.{
  Text, codes, is_space, lower, lower_char, lstrip, strip, text_eq, text_eq_iff,
}
use sentinel_subnet.Base.Int.{pos}
use sentinel_subnet.Base.{[], arith, none, refl, sym, true, ◌++◌, ◌↔◌, ◌∷◌, ◌≡◌}

abbrev agent : AttestationAgent (Unit {0})
agent = record {
  silicon = record { chip_id = codes "chip"; sign = λ m. ok (codes "key" ++ m) };
  launch_measurement = codes " AB ";
  tcb_level = pos 8;
}

abbrev report : AttestationReport
report = record (unsigned agent (codes "n1") (codes "data")) { signature = [] }

report-IsPlain : IsPlainReport report
unfolding unsigned
report-IsPlain = record {
  chip_id = ground arith;
  launch_measurement = ground arith;
  nonce = ground arith;
  report_data = ground arith;
}

abbrev proof : AttestationReport
proof = record report { signature = codes "key" ++ canonical report }

allowed : Allows (lower (strip (codes " AB "))) (codes "ab" ∷ [])
unfolding strip lstrip lower lower_char is_space
allowed = here (codes "ab") [] (λ e. cc e) refl

canonical-injective_example :
    (report.chip_id ≡ report.chip_id)
    × (report.launch_measurement ≡ report.launch_measurement)
    × (report.tcb_level ≡ report.tcb_level)
    × (report.nonce ≡ report.nonce)
    × (report.report_data ≡ report.report_data)
canonical-injective_example = canonical-injective report report report-IsPlain report-IsPlain refl

verify_iff_example :
    (verify plain_crypto proof (codes "key") (one (codes "ab")) (codes "n1") (pos 7) none ≡ ok tt)
    ↔ Accepts plain_crypto proof (codes "key") (one (codes "ab")) (codes "n1") (pos 7) none
verify_iff_example =
    verify_iff plain_crypto proof (codes "key") (one (codes "ab")) (codes "n1") (pos 7) none

key_read : plain_crypto.is_key (codes "key") ≡ true
unfolding text_eq
key_read = refl

genuine :
    (m s : Text) → agent.silicon.sign m ≡ ok s → plain_crypto.ed25519_valid (codes "key") m s ≡ true
genuine m s h =
    let same : codes "key" ++ m ≡ s = cc h in (text_eq_iff s (codes "key" ++ m)).1 (sym same)
