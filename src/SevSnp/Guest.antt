-- ===== src/SevSnp/Guest.antt =====
-- sentinel/sevsnp/guest.py: asking the chip for a report. The device is a parameter: what each
-- `ioctl` call answers to the request that it is given.
pub mod Wire
pub mod Exclusive
pub mod Cached
use sentinel_subnet.SevSnp.Report.{report_size}
use sentinel_subnet.Base.Result.{Result, err, ok, or_raise, raise_if, ◌>>=◌, ◌>>◌}
use sentinel_subnet.Base.Text.{Text}
use sentinel_subnet.Base.Bytes.{from_le, slice, to_hex}
use sentinel_subnet.Base.{
  Bool, Option, [], if◌then◌else◌, leb, length, ltb, not, replicate, suc, zero, ℕ, ◌%◌, ◌&&◌, ◌*◌,
  ◌++◌, ◌+◌, ◌/◌, ◌==◌, ◌^◌, ◌∷◌,
}

-- The messages of `GuestError`.
pub data GuestError : Type 0 where
  bad_user_data bad_vmpl short_response short_report no_device ioctl_failed : GuestError
  implausible_certificates : GuestError
  firmware_status : ℕ → GuestError

-- `(3 << 30) | (size << 16) | (ord(type_) << 8) | nr`, of fields that do not overlap.
unfoldable pub iowr : (type_ nr size : ℕ) → ℕ
iowr type_ nr size = 3 * 2 ^ 30 + size * 2 ^ 16 + type_ * 2 ^ 8 + nr

-- `struct.calcsize("<BxxxxxxxQQQ")`
abbrev pub ioctl_size : ℕ
ioctl_size = 32

unfoldable pub snp_get_report : ℕ
unfolding iowr
snp_get_report = iowr b'S' 0 ioctl_size

unfoldable pub snp_get_ext_report : ℕ
unfolding iowr
snp_get_ext_report = iowr b'S' 2 ioctl_size

abbrev pub vmm_err_invalid_len : ℕ
vmm_err_invalid_len = 1

abbrev pub errno_nospc : ℕ
errno_nospc = 28

abbrev pub max_certs_len : ℕ
max_certs_len = 2 ^ 20

abbrev pub resp_header_size : ℕ
resp_header_size = 32

-- `struct.pack("<I", n)` and `("<Q", n)`: the `n` lowest bytes, the lowest first.
unfoldable pub to_le : (width value : ℕ) → Text
to_le zero value = []
to_le (suc width) value = value % 256 ∷ to_le width (value / 256)

unfoldable pub build_request : (user_data : Text) (vmpl : ℕ) → Result GuestError Text
unfolding to_le
build_request user_data vmpl = do
  raise_if (not (length user_data == 64)) bad_user_data
  raise_if (not (leb vmpl 3)) bad_vmpl
  ok (user_data ++ (to_le 4 vmpl ++ replicate 28 0))

unfoldable pub parse_response : Text → Result GuestError Text
unfolding from_le slice
parse_response resp = do
  raise_if (ltb (length resp) (resp_header_size + report_size)) short_response
  let status = from_le (slice resp 0 4)
  raise_if (not (status == 0)) (firmware_status status)
  raise_if (ltb (from_le (slice resp 4 8)) report_size) short_report
  ok (slice resp resp_header_size (resp_header_size + report_size))

-- `struct.pack("<96sQI4x", …)`
unfoldable pub build_ext_request :
    (user_data : Text) (certs_addr certs_len vmpl : ℕ) → Result GuestError Text
unfolding build_request
build_ext_request user_data certs_addr certs_len vmpl = do
  request ← build_request user_data vmpl
  ok (request ++ (to_le 8 certs_addr ++ (to_le 4 certs_len ++ replicate 4 0)))

-- What an `ioctl` call leaves: the response buffer and the certificate buffer, or, where it fails,
-- also the error number, `exitinfo2` and the length that the kernel wrote into the request.
pub data Answer : Type 0 where
  done : (resp certs : Text) → Answer
  failed : (errno exitinfo2 certs_len : ℕ) (resp : Text) → Answer

-- The device by the number of the call; `none` where it is not there. The buffers of a request are
-- at addresses that the program does not choose, so the request's address field is an argument.
abbrev pub Device : Type 0
Device = Option ((number : ℕ) (request : Text) → Answer)

unfoldable pub request_report : Device → (user_data : Text) (vmpl : ℕ) → Result GuestError Text
request_report device user_data vmpl = do
  request ← build_request user_data vmpl
  ioctl ← or_raise device no_device
  elim (ioctl snp_get_report request) [
    | done resp certs ↦ parse_response resp
    | failed errno exitinfo2 certs_len resp ↦ err ioctl_failed
  ]

-- The second call, with the buffer that the first one asked for.
unfoldable pub fetch_certs :
    ((number : ℕ) (request : Text) → Answer)
    → (user_data : Text) (vmpl certs_addr certs_len : ℕ) → Result GuestError (Text × Text)
fetch_certs ioctl user_data vmpl certs_addr certs_len = do
  request ← build_ext_request user_data certs_addr certs_len vmpl
  elim (ioctl snp_get_ext_report request) [
    | done resp certs ↦ (do report ← parse_response resp; ok (report, certs))
    | failed errno exitinfo2 wanted resp ↦ err ioctl_failed
  ]

-- `(exitinfo2 >> 32) & 0xFFFFFFFF != VMM_ERR_INVALID_LEN and exc.errno != ERRNO_NOSPC`
unfoldable pub is_refusal : (errno exitinfo2 : ℕ) → Bool
is_refusal errno exitinfo2 =
    not (exitinfo2 / 2 ^ 32 % 2 ^ 32 == vmm_err_invalid_len) && not (errno == errno_nospc)

unfoldable pub request_ext_report :
    Device → (user_data : Text) (vmpl certs_addr : ℕ) → Result GuestError (Text × Text)
unfolding is_refusal
request_ext_report device user_data vmpl certs_addr = do
  ioctl ← or_raise device no_device
  probe ← build_ext_request user_data 0 0 vmpl
  elim (ioctl snp_get_ext_report probe) [
    | done resp certs ↦ (do report ← parse_response resp; ok (report, []))
    | failed errno exitinfo2 certs_len resp ↦ (do
      raise_if (is_refusal errno exitinfo2) ioctl_failed
      if certs_len == 0 then (do report ← parse_response resp; ok (report, [])) else (do
        raise_if (ltb max_certs_len certs_len) implausible_certificates
        fetch_certs ioctl user_data vmpl certs_addr certs_len))
  ]

-- `SevSnpSilicon.sign`: the report that is bound to the message's SHA-512 digest, in hexadecimal.
unfoldable pub sign :
    (sha512 : Text → Text) → Device → (vmpl : ℕ) → (message : Text) → Result GuestError Text
sign sha512 device vmpl message = do
  report ← request_report device (sha512 message) vmpl
  ok (to_hex report)
