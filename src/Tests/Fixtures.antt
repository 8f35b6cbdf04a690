-- ===== src/Tests/Fixtures.antt =====
-- Small concrete instances of what the program is given: hashes, keys, certificates, a chip's report.
use sentinel_subnet.Attestation.{Crypto}
use sentinel_subnet.SevSnp.Certs.{CertChain, Pki, elliptic_p384, fetch_failed, milan_root}
use sentinel_subnet.SevSnp.Certs.Cache.{rejected}
use sentinel_subnet.SevSnp.Verifier.{Kds, SevSnpVerifier}
use sentinel_subnet.SevSnp.Report.Layout.{Layout}
use sentinel_subnet.Base.Result.{err}
use sentinel_subnet.Base.Text.{Text, codes, text_eq}
use sentinel_subnet.Base.{
  [], false, length, none, not, replicate, some, take, true, ◌++◌, ◌==◌, ◌∷◌,
}

-- A digest is its message, a key signs by writing itself before the message.
abbrev pub plain_crypto : Crypto
plain_crypto = record {
  sha256 = λ m. m;
  sha384 = λ m. m;
  sha512 = λ m. take 64 (m ++ replicate 64 0);
  is_key = λ key. not (text_eq key (codes "no key"));
  ed25519_valid = λ key message signature. text_eq signature (key ++ message);
}

-- Subject, issuer, the key certified and the key that signed.
abbrev pub Cert : Type 0
Cert = Text × Text × Text × Text

abbrev pub pki : Pki Cert Text
pki = record {
  subject = λ c. c.0;
  issuer = λ c. c.1;
  public_key = λ c. c.2;
  kind = λ key. elliptic_p384;
  has_hash_algorithm = λ c. true;
  verifies = λ key c. text_eq key c.3;
  spki_sha256 = λ key. key;
  ecdsa_valid = λ key r s message. length message == 672;
}

abbrev pub ark : Cert
ark = (codes "ARK", codes "ARK", milan_root, milan_root)

abbrev pub ask : Cert
ask = (codes "ASK", codes "ARK", codes "ask", milan_root)

abbrev pub vcek : Cert
vcek = (codes "VCEK", codes "ASK", codes "vcek", codes "ask")

abbrev pub milan : CertChain Cert
milan = record { product = codes "Milan"; ask = ask; ark = ark; expected_root_spki_sha256 = none }

abbrev pub no_kds : Kds Cert
no_kds = record {
  fetch_cert_chain = λ product. err (rejected fetch_failed);
  fetch_vcek = λ p c t. err (rejected fetch_failed);
}

-- A report for the message "m".
abbrev pub layout : Layout
layout = record {
  version = 2 ∷ 0 ∷ 0 ∷ 0 ∷ [];
  guest_svn = replicate 4 0;
  policy = replicate 8 0;
  family_id = replicate 16 0;
  image_id = replicate 16 0;
  vmpl = replicate 4 0;
  signature_algo = 1 ∷ 0 ∷ 0 ∷ 0 ∷ [];
  current_tcb = replicate 8 0;
  platform_info = replicate 8 0;
  flags = replicate 8 0;
  report_data = b'm' ∷ replicate 63 0;
  measurement = replicate 48 1;
  host_data = replicate 32 0;
  id_key_digest = replicate 48 0;
  author_key_digest = replicate 48 0;
  report_id = replicate 32 0;
  report_id_ma = replicate 32 0;
  reported_tcb = 3 ∷ 0 ∷ 0 ∷ 0 ∷ 0 ∷ 0 ∷ 0x1D ∷ 9 ∷ [];
  reserved_a = replicate 24 0;
  chip_id = replicate 64 7;
  committed_tcb = replicate 8 0;
  versions = replicate 8 0;
  launch_tcb = replicate 8 0;
  reserved_b = replicate 168 0;
  signature_r = replicate 72 0;
  signature_s = replicate 72 0;
  reserved_c = replicate 368 0;
}

abbrev pub verifier : SevSnpVerifier Cert
verifier = record {
  product = codes "Milan";
  policy = record {
    approved = replicate 48 1 ∷ [];
    floor = record { min_bootloader = 0; min_tee = 0; min_snp = 0x1D; min_microcode = 0 };
    allow_debug = false;
  };
  chain = some milan;
  offline = true;
}
