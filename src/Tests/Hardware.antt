-- ===== src/Tests/Hardware.antt =====
-- The hardware theorems at concrete inputs.
use sentinel_subnet.SevSnp.Certs.{
  amd_root_spki_sha256, check_by_kind, expected_root, fetch_failed, load_cert_chain, require_p384,
  verify_cert_signature, verify_self, verify_vcek,
}
use sentinel_subnet.SevSnp.Verifier.{
  cert_chain, check, debug_allowed_by, endorse, is_elliptic, obtain_vcek, pad64, unbound,
  verify_report, verify_signature,
}
use sentinel_subnet.SevSnp.Verifier.Verdict.{Verdict, verify_report-Verdict}
use sentinel_subnet.SevSnp.Report.{
  TcbVersion, der_signature, fields, parse_report, signed_bytes, u32, u64, unpack,
}
use sentinel_subnet.SevSnp.Report.Layout.{HasWidths, encode, meaning, parse_report-encode}
use sentinel_subnet.SevSnp.CertTable.{known_guids, name_of, parse_cert_table, scan, uuid_text}
use sentinel_subnet.SevSnp.CertTable.Bounds.{AllPieces, parse_cert_table-AllPieces}
use sentinel_subnet.Tests.Fixtures.{Cert, ark, ask, layout, milan, no_kds, pki, vcek, verifier}
use sentinel_subnet.SevSnp.Certs.Cache.{
  fetch-again, fetch_cert_chain, fetch_vcek, from_cache, read_chain, read_vcek, rejected,
}
use sentinel_subnet.SevSnp.Guest.Exclusive.{
  Channel, Reaches, at_most_one, changed, flock_taken, guarded, here, idle, locked, next, open_file,
  open_raises, opened, take_lock, unguarded,
}
use sentinel_subnet.Base.Result.{err, ok}
use sentinel_subnet.Base.Text.{Text, codes, member, text_eq}
use sentinel_subnet.Base.Dict.{insert, lookup}
use sentinel_subnet.Base.Bytes.{any_byte, from_le, slice, to_hex}
use sentinel_subnet.Base.{
  List, Option, [], arith, none, refl, replicate, some, true, ℕ, ◌++◌, ◌∷◌, ◌≡◌, ◌≢◌, ◌⊎◌,
}

milan_valid : verify_vcek pki vcek milan ≡ ok tt
unfolding verify_vcek verify_self verify_cert_signature check_by_kind expected_root text_eq
    amd_root_spki_sha256 lookup
milan_valid = refl

layout-HasWidths : HasWidths layout
layout-HasWidths = record {
  version = refl;
  guest_svn = refl;
  policy = refl;
  family_id = refl;
  image_id = refl;
  vmpl = refl;
  signature_algo = refl;
  current_tcb = refl;
  platform_info = refl;
  flags = refl;
  report_data = refl;
  measurement = refl;
  host_data = refl;
  id_key_digest = refl;
  author_key_digest = refl;
  report_id = refl;
  report_id_ma = refl;
  reported_tcb = refl;
  reserved_a = refl;
  chip_id = refl;
  committed_tcb = refl;
  versions = refl;
  launch_tcb = refl;
  reserved_b = refl;
  signature_r = refl;
  signature_s = refl;
  reserved_c = refl;
}

layout_version : from_le layout.version ≢ 0
unfolding from_le
layout_version h = omega arith

layout_algo : from_le layout.signature_algo ≡ 1
unfolding from_le
layout_algo = refl

parse_report-encode_example : parse_report (encode layout ++ (5 ∷ 6 ∷ [])) ≡ ok (meaning layout)
parse_report-encode_example =
    parse_report-encode layout layout-HasWidths (5 ∷ 6 ∷ []) layout_version layout_algo

accepted :
    verify_report pki no_kds verifier (encode layout) (some (b'm' ∷ [])) (some vcek)
    ≡ ok (meaning layout)
unfolding verify_report parse_report fields slice u32 u64 from_le unpack obtain_vcek endorse
    cert_chain verify_vcek verify_self verify_cert_signature check_by_kind expected_root text_eq
    amd_root_spki_sha256 lookup verify_signature is_elliptic der_signature signed_bytes check member
    debug_allowed_by unbound pad64 require_p384
accepted = refl

verify_report-Verdict_example :
    Verdict pki no_kds verifier (encode layout) (some (b'm' ∷ [])) (some vcek) (meaning layout)
verify_report-Verdict_example =
    verify_report-Verdict pki no_kds verifier (encode layout) (some (b'm' ∷ [])) (some vcek)
      (meaning layout) accepted

-- One entry for the guid 63da758d-e664-4564-adc5-f4b93be8accd, three bytes at 48, and the terminator.
abbrev table : Text
table =
    0x63
    ∷ 0xda
    ∷ 0x75
    ∷ 0x8d
    ∷ 0xe6
    ∷ 0x64
    ∷ 0x45
    ∷ 0x64
    ∷ 0xad
    ∷ 0xc5
    ∷ 0xf4
    ∷ 0xb9
    ∷ 0x3b
    ∷ 0xe8
    ∷ 0xac
    ∷ 0xcd
    ∷ 48
    ∷ 0
    ∷ 0
    ∷ 0
    ∷ 3
    ∷ 0
    ∷ 0
    ∷ 0
    ∷ (replicate 24 0 ++ (1 ∷ 2 ∷ 3 ∷ []))

table_parsed : parse_cert_table table ≡ ok ((codes "VCEK", 1 ∷ 2 ∷ 3 ∷ []) ∷ [])
unfolding parse_cert_table scan any_byte slice from_le name_of known_guids uuid_text to_hex lookup
    text_eq insert
table_parsed = refl

parse_cert_table-AllPieces_example : AllPieces table ((codes "VCEK", 1 ∷ 2 ∷ 3 ∷ []) ∷ [])
parse_cert_table-AllPieces_example =
    parse_cert_table-AllPieces table ((codes "VCEK", 1 ∷ 2 ∷ 3 ∷ []) ∷ []) table_parsed

-- AMD's service at first; later it serves nothing.
abbrev serves : Text → Option Text
serves url = some (codes "pem")

abbrev load_pem : Text → Option (List Cert)
load_pem content = some (ask ∷ ark ∷ [])

abbrev load_vcek : Text → Option Cert
load_vcek content = some vcek

abbrev firmware : TcbVersion
firmware = record { bootloader = 3; tee = 0; snp = 29; microcode = 115; raw = 0 }

chain_comes :
    (fetch_cert_chain pki load_pem serves (codes "Milan") []).0 ≢ err (rejected fetch_failed)
unfolding fetch_cert_chain from_cache lookup member text_eq read_chain load_cert_chain
chain_comes e = cc e

vcek_comes :
    (fetch_vcek load_vcek serves (codes "Milan") (codes "ab") firmware []).0
    ≢ err (rejected fetch_failed)
unfolding fetch_vcek from_cache lookup read_vcek
vcek_comes e = cc e

fetch-again_example :
    (fetch_cert_chain pki load_pem
        (λ url. none)
        (codes "Milan")
        (fetch_cert_chain pki load_pem serves (codes "Milan") []).1
      ≡ fetch_cert_chain pki load_pem serves (codes "Milan") [])
    × (fetch_vcek load_vcek
          (λ url. none)
          (codes "Milan")
          (codes "ab")
          firmware
          (fetch_vcek load_vcek serves (codes "Milan") (codes "ab") firmware []).1
        ≡ fetch_vcek load_vcek serves (codes "Milan") (codes "ab") firmware [])
fetch-again_example =
    fetch-again pki load_pem load_vcek serves (λ url. none) (codes "Milan") (codes "ab") firmware []
      chain_comes vcek_comes

-- Two processes with a chip object each; the second cannot open the lock file.
abbrev own_process : ℕ → ℕ
own_process i = i

abbrev collided : Channel
collided = record {
  phase =
      changed 2 unguarded
        (changed 2 locked (changed 1 guarded (changed 1 opened (changed 1 locked idle.phase))));
  held = changed 2 (some 2) (changed 1 (some 1) idle.held);
  flocked = some 1;
  warned = changed 2 true idle.warned;
}

collision : Reaches own_process own_process idle collided
collision =
    next
      (next
        (next (next (next here (take_lock 1 refl refl)) (open_file 1 refl))
          (flock_taken 1 refl refl))
        (take_lock 2 refl refl))
      (open_raises 2 refl)

at_most_one_example :
    (own_process 1 ≢ own_process 2)
    × (((collided.phase 1 ≡ unguarded) × (collided.warned 1 ≡ true))
        ⊎ ((collided.phase 2 ≡ unguarded) × (collided.warned 2 ≡ true)))
at_most_one_example =
    at_most_one own_process own_process 1 2 collision refl refl (λ e. omega (arith, e))
