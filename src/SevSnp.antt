-- ===== src/SevSnp.antt =====
-- sentinel/sevsnp: attestation reports of AMD hardware, and their verification.
pub mod Report
pub mod CertTable
pub mod Certs
pub mod Verifier
pub mod Guest
