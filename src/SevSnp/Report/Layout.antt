-- ===== src/SevSnp/Report/Layout.antt =====
-- The fields of a report in the order in which the firmware writes them, and that the parser's
-- offsets find each of them (sentinel/sevsnp/report.py).
use sentinel_subnet.SevSnp.Report.{
  AttestationReportBlob, fields, parse_report, report_size, u32, u64, unpack,
}
use sentinel_subnet.Base.Result.{ok}
use sentinel_subnet.Base.Text.{Text}
use sentinel_subnet.Base.Bytes.{
  concat, from_le, get_elem?, length-concat, slice, slice-field, total,
}
use sentinel_subnet.Base.{
  List, [], ap, arith, false, length, length-append, ltb, refl, some, take, take-append, ℕ, ◌++◌,
  ◌+◌, ◌==◌, ◌∙◌, ◌∷◌, ◌≡◌, ◌≢◌,
}

-- The ABI's table. `flags`, `versions` and `reserved_…` are not read.
pub record Layout : Type 0 where
  pub version : Text
  pub guest_svn : Text
  pub policy : Text
  pub family_id : Text
  pub image_id : Text
  pub vmpl : Text
  pub signature_algo : Text
  pub current_tcb : Text
  pub platform_info : Text
  pub flags : Text
  pub report_data : Text
  pub measurement : Text
  pub host_data : Text
  pub id_key_digest : Text
  pub author_key_digest : Text
  pub report_id : Text
  pub report_id_ma : Text
  pub reported_tcb : Text
  pub reserved_a : Text
  pub chip_id : Text
  pub committed_tcb : Text
  pub versions : Text
  pub launch_tcb : Text
  pub reserved_b : Text
  pub signature_r : Text
  pub signature_s : Text
  pub reserved_c : Text

-- The width of each field in bytes.
pub record HasWidths (l : Layout) : Type 0 where
  pub version : length l.version ≡ 4
  pub guest_svn : length l.guest_svn ≡ 4
  pub policy : length l.policy ≡ 8
  pub family_id : length l.family_id ≡ 16
  pub image_id : length l.image_id ≡ 16
  pub vmpl : length l.vmpl ≡ 4
  pub signature_algo : length l.signature_algo ≡ 4
  pub current_tcb : length l.current_tcb ≡ 8
  pub platform_info : length l.platform_info ≡ 8
  pub flags : length l.flags ≡ 8
  pub report_data : length l.report_data ≡ 64
  pub measurement : length l.measurement ≡ 48
  pub host_data : length l.host_data ≡ 32
  pub id_key_digest : length l.id_key_digest ≡ 48
  pub author_key_digest : length l.author_key_digest ≡ 48
  pub report_id : length l.report_id ≡ 32
  pub report_id_ma : length l.report_id_ma ≡ 32
  pub reported_tcb : length l.reported_tcb ≡ 8
  pub reserved_a : length l.reserved_a ≡ 24
  pub chip_id : length l.chip_id ≡ 64
  pub committed_tcb : length l.committed_tcb ≡ 8
  pub versions : length l.versions ≡ 8
  pub launch_tcb : length l.launch_tcb ≡ 8
  pub reserved_b : length l.reserved_b ≡ 168
  pub signature_r : length l.signature_r ≡ 72
  pub signature_s : length l.signature_s ≡ 72
  pub reserved_c : length l.reserved_c ≡ 368

abbrev chunks : Layout → List Text
chunks l =
    l.version ∷ l.guest_svn ∷ l.policy ∷ l.family_id ∷ l.image_id ∷ l.vmpl ∷ l.signature_algo
    ∷ l.current_tcb ∷ l.platform_info ∷ l.flags ∷ l.report_data ∷ l.measurement ∷ l.host_data
    ∷ l.id_key_digest ∷ l.author_key_digest ∷ l.report_id ∷ l.report_id_ma ∷ l.reported_tcb
    ∷ l.reserved_a ∷ l.chip_id ∷ l.committed_tcb ∷ l.versions ∷ l.launch_tcb ∷ l.reserved_b
    ∷ l.signature_r ∷ l.signature_s ∷ l.reserved_c ∷ []

-- The report as bytes.
abbrev pub encode : Layout → Text
encode l = concat (chunks l)

-- What the report says.
abbrev pub meaning : Layout → AttestationReportBlob
meaning l = record {
  version = from_le l.version;
  guest_svn = from_le l.guest_svn;
  policy = from_le l.policy;
  family_id = l.family_id;
  image_id = l.image_id;
  vmpl = from_le l.vmpl;
  signature_algo = from_le l.signature_algo;
  current_tcb = unpack (from_le l.current_tcb);
  platform_info = from_le l.platform_info;
  report_data = l.report_data;
  measurement = l.measurement;
  host_data = l.host_data;
  id_key_digest = l.id_key_digest;
  author_key_digest = l.author_key_digest;
  report_id = l.report_id;
  report_id_ma = l.report_id_ma;
  reported_tcb = unpack (from_le l.reported_tcb);
  chip_id = l.chip_id;
  committed_tcb = unpack (from_le l.committed_tcb);
  launch_tcb = unpack (from_le l.launch_tcb);
  signature_r = l.signature_r;
  signature_s = l.signature_s;
  raw = encode l;
}

-- A blob of the right size is parsed from its fields, whatever follows it.
parse_report-append :
    (blob trailing : Text) (r : AttestationReportBlob)
    → length blob ≡ report_size
    → fields blob ≡ r
    → r.version ≢ 0
    → r.signature_algo ≡ 1
    → parse_report (blob ++ trailing) ≡ ok r
unfolding parse_report
parse_report-append blob trailing r n e v a =
    let enough : ltb (length (blob ++ trailing)) report_size ≡ false =
      ground (arith, length-append blob trailing) in
    let v' : (r.version == 0) ≡ false = ground arith in
    rw (enough, take-append blob trailing report_size n, e, v', a)

module _ (l : Layout) (w : HasWidths l) where
  at_field :
      (n : ℕ) (x : Text) (start stop : ℕ)
      → get_elem? (chunks l) n ≡ some x
      → total (take n (chunks l)) ≡ start
      → start + length x ≡ stop
      → slice (encode l) start stop ≡ x
  at_field n x start stop e p q = slice-field (chunks l) n x start stop e p q

  fields-encode : fields (encode l) ≡ meaning l
  unfolding fields u32 u64
  fields-encode = λ i. record {
    version = (ap from_le (at_field 0 l.version 0 4 refl (omega arith) (omega arith))) i;
    guest_svn = (ap from_le (at_field 1 l.guest_svn 4 8 refl (omega arith) (omega arith))) i;
    policy = (ap from_le (at_field 2 l.policy 8 16 refl (omega arith) (omega arith))) i;
    family_id = (at_field 3 l.family_id 16 32 refl (omega arith) (omega arith)) i;
    image_id = (at_field 4 l.image_id 32 48 refl (omega arith) (omega arith)) i;
    vmpl = (ap from_le (at_field 5 l.vmpl 48 52 refl (omega arith) (omega arith))) i;
    signature_algo =
        (ap from_le (at_field 6 l.signature_algo 52 56 refl (omega arith) (omega arith))) i;
    current_tcb =
        (ap (λ b. unpack (from_le b))
            (at_field 7 l.current_tcb 56 64 refl (omega arith) (omega arith)))
          i;
    platform_info =
        (ap from_le (at_field 8 l.platform_info 64 72 refl (omega arith) (omega arith))) i;
    report_data = (at_field 10 l.report_data 80 144 refl (omega arith) (omega arith)) i;
    measurement = (at_field 11 l.measurement 144 192 refl (omega arith) (omega arith)) i;
    host_data = (at_field 12 l.host_data 192 224 refl (omega arith) (omega arith)) i;
    id_key_digest = (at_field 13 l.id_key_digest 224 272 refl (omega arith) (omega arith)) i;
    author_key_digest =
        (at_field 14 l.author_key_digest 272 320 refl (omega arith) (omega arith)) i;
    report_id = (at_field 15 l.report_id 320 352 refl (omega arith) (omega arith)) i;
    report_id_ma = (at_field 16 l.report_id_ma 352 384 refl (omega arith) (omega arith)) i;
    reported_tcb =
        (ap (λ b. unpack (from_le b))
            (at_field 17 l.reported_tcb 384 392 refl (omega arith) (omega arith)))
          i;
    chip_id = (at_field 19 l.chip_id 416 480 refl (omega arith) (omega arith)) i;
    committed_tcb =
        (ap (λ b. unpack (from_le b))
            (at_field 20 l.committed_tcb 480 488 refl (omega arith) (omega arith)))
          i;
    launch_tcb =
        (ap (λ b. unpack (from_le b))
            (at_field 22 l.launch_tcb 496 504 refl (omega arith) (omega arith)))
          i;
    signature_r = (at_field 24 l.signature_r 672 744 refl (omega arith) (omega arith)) i;
    signature_s = (at_field 25 l.signature_s 744 816 refl (omega arith) (omega arith)) i;
    raw = encode l;
  }

  length-encode : length (encode l) ≡ report_size
  length-encode = length-concat (chunks l) ∙ omega arith

  -- Every report of the ABI's layout that has a version and the one signature algorithm, with any
  -- bytes behind it, is parsed into what its fields say: each offset is the right one.
  pub parse_report-encode :
      (trailing : Text)
      → from_le l.version ≢ 0
      → from_le l.signature_algo ≡ 1
      → parse_report (encode l ++ trailing) ≡ ok (meaning l)
  parse_report-encode trailing v a =
      parse_report-append (encode l) trailing (meaning l) length-encode fields-encode v a
