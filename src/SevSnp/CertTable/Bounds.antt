-- ===== src/SevSnp/CertTable/Bounds.antt =====
-- Certificates come from inside the blob (sentinel/sevsnp/certtable.py).
use sentinel_subnet.SevSnp.CertTable.{name_of, parse_cert_table, scan}
use sentinel_subnet.Base.Result.{ok}
use sentinel_subnet.Base.Text.{Text, text_eq}
use sentinel_subnet.Base.Dict.{Dict, insert}
use sentinel_subnet.Base.Bytes.{any_byte, from_le, slice}
use sentinel_subnet.Base.{
  All, Bool-cases, [], arith, inl, inr, length, ltb, refl, subst, suc, zero, ℕ, ◌+◌, ◌/◌, ◌<◌, ◌==◌,
  ◌∷◌, ◌≡◌, ◌≤◌,
}

-- `der` is a non-empty piece of `blob`.
pub record IsPiece (blob der : Text) : Type 0 where
  pub offset : ℕ
  pub size : ℕ
  pub some_bytes : 0 < size
  pub inside : offset + size ≤ length blob
  pub is_slice : der ≡ slice blob offset (offset + size)

-- Every value of the dictionary is one.
abbrev pub AllPieces : Text → Dict Text → Type 0
AllPieces blob d = All (λ (e : Text × Text). IsPiece blob e.1) d

insert-AllPieces :
    (blob k v : Text) (d : Dict Text)
    → IsPiece blob v
    → AllPieces blob d
    → AllPieces blob (insert k v d)
unfolding insert
insert-AllPieces blob k v [] p h = (p, tt)
insert-AllPieces blob k v ((j, w) ∷ d) p h = elim (Bool-cases (text_eq j k)) [
  | inl same ↦ rw same (p, h.1)
  | inr other ↦ rw other (h.0, insert-AllPieces blob k v d p h.1)
]

scan-AllPieces :
    (left start : ℕ) (blob : Text) (out result : Dict Text)
    → AllPieces blob out
    → scan left start blob out ≡ ok result
    → AllPieces blob result
unfolding scan
scan-AllPieces zero start blob out result h e = cc e
scan-AllPieces (suc left) start blob out result h e =
    let entry : Text = slice blob start (start + 24) in
    let offset : ℕ = from_le (slice entry 16 20) in
    let size : ℕ = from_le (slice entry 20 24) in
    elim (Bool-cases (any_byte entry)) [
      | inr blank ↦ subst (AllPieces blob) (cc (rw blank at e)) h
      | inl full ↦ elim (Bool-cases (size == 0)) [
        | inl nothing ↦ scan-AllPieces left (start + 24) blob out result h (rw (full, nothing) at e)
        | inr positive ↦ elim (Bool-cases (ltb (length blob) (offset + size))) [
          | inl outside ↦ absurd (cc (rw (full, positive, outside) at e))
          | inr within ↦
              let piece : IsPiece blob (slice blob offset (offset + size)) = record {
                offset = offset;
                size = size;
                some_bytes = ground arith;
                inside = ground arith;
                is_slice = refl;
              } in
              scan-AllPieces left (start + 24) blob
                (insert (name_of (slice entry 0 16)) (slice blob offset (offset + size)) out) result
                (insert-AllPieces blob _ _ out piece h) (rw (full, positive, within) at e)
        ]
      ]
    ]

-- Whatever the bytes, a table that is accepted has only certificates that lie wholly inside the
-- blob and are not empty.
pub parse_cert_table-AllPieces :
    (blob : Text) (certs : Dict Text) → parse_cert_table blob ≡ ok certs → AllPieces blob certs
unfolding parse_cert_table
parse_cert_table-AllPieces blob certs h = elim (Bool-cases (any_byte blob)) [
  | inl some_bytes ↦ scan-AllPieces (length blob / 24) 0 blob [] certs tt (rw some_bytes at h)
  | inr blank ↦ let e : [] ≡ certs = cc (rw blank at h) in subst (AllPieces blob) e tt
]
