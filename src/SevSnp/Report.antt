-- ===== src/SevSnp/Report.antt =====
-- sentinel/sevsnp/report.py: the 1184 bytes of an ATTESTATION_REPORT.
pub mod Layout
use sentinel_subnet.Base.Result.{Result, ok, raise_if, ◌>>=◌, ◌>>◌}
use sentinel_subnet.Base.Text.{Text}
use sentinel_subnet.Base.Bytes.{from_le, slice, to_hex}
use sentinel_subnet.Base.{
  if◌then◌else◌, leb, length, ltb, map, not, take, ℕ, ◌%◌, ◌&&◌, ◌*◌, ◌+◌, ◌-◌, ◌/◌, ◌==◌, ◌^◌,
}

abbrev pub report_size : ℕ
report_size = 0x4A0

abbrev pub signature_offset : ℕ
signature_offset = 0x2A0

abbrev pub signed_length : ℕ
signed_length = signature_offset

abbrev pub sig_component_len : ℕ
sig_component_len = 72

abbrev pub sig_algo_ecdsa_p384_sha384 : ℕ
sig_algo_ecdsa_p384_sha384 = 1

-- The messages of `ReportParseError`.
pub data ReportParseError : Type 0 where
  too_short version_zero unsupported_algorithm : ReportParseError

pub record TcbVersion : Type 0 where
  pub bootloader : ℕ
  pub tee : ℕ
  pub snp : ℕ
  pub microcode : ℕ
  pub raw : ℕ

-- `TcbVersion.unpack`: `value >> k` is a division, `& 0xFF` a remainder.
unfoldable pub unpack : ℕ → TcbVersion
unpack value = record {
  bootloader = value % 256;
  tee = value / 2 ^ 8 % 256;
  snp = value / 2 ^ 48 % 256;
  microcode = value / 2 ^ 56 % 256;
  raw = value;
}

pub record AttestationReportBlob : Type 0 where
  pub version : ℕ
  pub guest_svn : ℕ
  pub policy : ℕ
  pub family_id : Text
  pub image_id : Text
  pub vmpl : ℕ
  pub signature_algo : ℕ
  pub current_tcb : TcbVersion
  pub platform_info : ℕ
  pub report_data : Text
  pub measurement : Text
  pub host_data : Text
  pub id_key_digest : Text
  pub author_key_digest : Text
  pub report_id : Text
  pub report_id_ma : Text
  pub reported_tcb : TcbVersion
  pub chip_id : Text
  pub committed_tcb : TcbVersion
  pub launch_tcb : TcbVersion
  pub signature_r : Text
  pub signature_s : Text
  pub raw : Text

unfoldable pub signed_bytes : AttestationReportBlob → Text
signed_bytes r = take signed_length r.raw

unfoldable pub measurement_hex : AttestationReportBlob → Text
unfolding to_hex
measurement_hex r = to_hex r.measurement

-- `str.upper` on one character
unfoldable pub upper_char : ℕ → ℕ
upper_char c = if leb b'a' c && leb c b'z' then c - 32 else c

unfoldable pub chip_id_hex : AttestationReportBlob → Text
unfolding to_hex upper_char
chip_id_hex r = map upper_char (to_hex r.chip_id)

-- The numbers r and s that `encode_dss_signature` is given.
unfoldable pub der_signature : AttestationReportBlob → ℕ × ℕ
unfolding from_le
der_signature r = (from_le (take 48 r.signature_r), from_le (take 48 r.signature_s))

unfoldable pub u32 : Text → ℕ → ℕ
unfolding from_le slice
u32 blob off = from_le (slice blob off (off + 4))

unfoldable pub u64 : Text → ℕ → ℕ
unfolding from_le slice
u64 blob off = from_le (slice blob off (off + 8))

-- The fields of a blob of `report_size` bytes.
unfoldable pub fields : Text → AttestationReportBlob
unfolding slice unpack u32 u64
fields blob = record {
  version = u32 blob 0x000;
  guest_svn = u32 blob 0x004;
  policy = u64 blob 0x008;
  family_id = slice blob 0x010 0x020;
  image_id = slice blob 0x020 0x030;
  vmpl = u32 blob 0x030;
  signature_algo = u32 blob 0x034;
  current_tcb = unpack (u64 blob 0x038);
  platform_info = u64 blob 0x040;
  report_data = slice blob 0x050 0x090;
  measurement = slice blob 0x090 0x0C0;
  host_data = slice blob 0x0C0 0x0E0;
  id_key_digest = slice blob 0x0E0 0x110;
  author_key_digest = slice blob 0x110 0x140;
  report_id = slice blob 0x140 0x160;
  report_id_ma = slice blob 0x160 0x180;
  reported_tcb = unpack (u64 blob 0x180);
  chip_id = slice blob 0x1A0 0x1E0;
  committed_tcb = unpack (u64 blob 0x1E0);
  launch_tcb = unpack (u64 blob 0x1F0);
  signature_r = slice blob signature_offset (signature_offset + sig_component_len);
  signature_s =
      slice blob (signature_offset + sig_component_len) (signature_offset + 2 * sig_component_len);
  raw = blob;
}

unfoldable pub parse_report : Text → Result ReportParseError AttestationReportBlob
parse_report given = do
  raise_if (ltb (length given) report_size) too_short
  let report = fields (take report_size given)
  raise_if (report.version == 0) version_zero
  raise_if (not (report.signature_algo == sig_algo_ecdsa_p384_sha384)) unsupported_algorithm
  ok report
