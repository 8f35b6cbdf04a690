-- ===== src/Attestation/Canonical.antt =====
-- The bytes that a chip signs determine every field that they are made of.
use mathlib.Core.List.{append_assoc}
use sentinel_subnet.Base.Json.{print_int}
use sentinel_subnet.Base.Json.Escape.{IsPlain, quoted, quoted_prefix}
use sentinel_subnet.Attestation.{AttestationReport, canonical}
use sentinel_subnet.Base.Text.{Text, codes}
use sentinel_subnet.Base.Int.{negsuc, pos, ℤ}
use sentinel_subnet.Base.Decimal.{decimal, parse_nat, parse_nat-decimal}
use sentinel_subnet.Base.{
  ap, append-cancel_left, append-cancel_right, arith, none, refl, suc, sym, ℕ, ◌++◌, ◌∙◌, ◌∷◌, ◌≡◌,
  ◌≢◌,
}

-- The keys in the order of `sort_keys=True`.
canonical_lem :
    (r : AttestationReport)
    → canonical r
      ≡ codes "{\"chip_id\":"
        ++ (quoted r.chip_id
            ++ (codes ",\"launch_measurement\":"
                ++ (quoted r.launch_measurement
                    ++ (codes ",\"nonce\":"
                        ++ (quoted r.nonce
                            ++ (codes ",\"report_data\":"
                                ++ (quoted r.report_data
                                    ++ (codes ",\"tcb_level\":"
                                        ++ (print_int r.tcb_level ++ codes "}")))))))))
unfolding canonical
canonical_lem r = simp append_assoc

-- A printed integer is not empty, and says which integer it is.
decimal-injective : (n m : ℕ) → decimal n ≡ decimal m → n ≡ m
decimal-injective n m e = cc (ap parse_nat e, parse_nat-decimal n, parse_nat-decimal m)

minus_unread : (s : Text) → parse_nat (b'-' ∷ s) ≡ none
unfolding parse_nat
minus_unread s = refl

minus-ne-decimal : (n : ℕ) (s : Text) → b'-' ∷ s ≢ decimal n
minus-ne-decimal n s e = absurd (cc (ap parse_nat e, parse_nat-decimal n, minus_unread s))

print_int-injective : (n m : ℤ) → print_int n ≡ print_int m → n ≡ m
unfolding print_int
print_int-injective (pos n) (pos m) e = ap pos (decimal-injective n m e)
print_int-injective (pos n) (negsuc m) e = absurd (minus-ne-decimal n _ (sym e))
print_int-injective (negsuc n) (pos m) e = absurd (minus-ne-decimal m _ e)
print_int-injective (negsuc n) (negsuc m) e =
    let p : suc n ≡ suc m = decimal-injective (suc n) (suc m) (cc e) in ap negsuc (omega arith)

-- Texts of the basic plane in all fields.
pub record IsPlainReport (r : AttestationReport) : Type 0 where
  pub chip_id : IsPlain r.chip_id
  pub launch_measurement : IsPlain r.launch_measurement
  pub nonce : IsPlain r.nonce
  pub report_data : IsPlain r.report_data

-- Two reports, in texts of the basic plane, with the same signed bytes agree in the chip, the
-- measurement, the firmware level, the nonce and the binding: a signature over one is a signature
-- over no other claim.
pub canonical-injective :
    (r s : AttestationReport)
    → IsPlainReport r
    → IsPlainReport s
    → canonical r ≡ canonical s
    → (r.chip_id ≡ s.chip_id)
      × (r.launch_measurement ≡ s.launch_measurement)
      × (r.tcb_level ≡ s.tcb_level)
      × (r.nonce ≡ s.nonce)
      × (r.report_data ≡ s.report_data)
canonical-injective r s hr hs e =
    let e₀ = sym (canonical_lem r) ∙ e ∙ canonical_lem s in
    let (chip, e₁) =
      quoted_prefix _ _ _ _ hr.chip_id hs.chip_id (append-cancel_left (codes "{\"chip_id\":") e₀) in
    let (measured, e₂) =
      quoted_prefix _ _ _ _ hr.launch_measurement hs.launch_measurement
        (append-cancel_left (codes ",\"launch_measurement\":") e₁) in
    let (nonce, e₃) =
      quoted_prefix _ _ _ _ hr.nonce hs.nonce (append-cancel_left (codes ",\"nonce\":") e₂) in
    let (bound, e₄) =
      quoted_prefix _ _ _ _ hr.report_data hs.report_data
        (append-cancel_left (codes ",\"report_data\":") e₃) in
    let level =
      append-cancel_right (print_int r.tcb_level) (print_int s.tcb_level) b'}'
        (append-cancel_left (codes ",\"tcb_level\":") e₄) in
    (chip, measured, print_int-injective _ _ level, nonce, bound)
