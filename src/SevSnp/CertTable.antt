-- ===== src/SevSnp/CertTable.antt =====
-- sentinel/sevsnp/certtable.py: the certificate table that a host attaches to a report.
pub mod Bounds
use sentinel_subnet.Base.Result.{Result, err, ok}
use sentinel_subnet.Base.Text.{Text, codes}
use sentinel_subnet.Base.Dict.{Dict, insert, lookup}
use sentinel_subnet.Base.Bytes.{any_byte, from_le, slice, to_hex}
use sentinel_subnet.Base.{
  [], given_or, if◌then◌else◌, length, ltb, not, suc, zero, ℕ, ◌++◌, ◌+◌, ◌/◌, ◌==◌, ◌∷◌,
}

abbrev pub entry_size : ℕ
entry_size = 24

-- `CertTableError`
pub data CertTableError : Type 0 where
  outside_blob no_terminator : CertTableError

-- `str(uuid.UUID(bytes=raw))`: 8-4-4-4-12 hexadecimal digits.
unfoldable pub uuid_text : Text → Text
unfolding to_hex slice
uuid_text raw =
    to_hex (slice raw 0 4)
    ++ (b'-'
        ∷ (to_hex (slice raw 4 6)
            ++ (b'-'
                ∷ (to_hex (slice raw 6 8)
                    ++ (b'-' ∷ (to_hex (slice raw 8 10) ++ (b'-' ∷ to_hex (slice raw 10 16))))))))

-- `KNOWN_GUIDS`
unfoldable pub known_guids : Dict Text
known_guids =
    (codes "63da758d-e664-4564-adc5-f4b93be8accd", codes "VCEK")
    ∷ (codes "a8074bc2-a25a-483e-aae6-39c045a0b8a1", codes "VLEK")
    ∷ (codes "4ab7b379-bbac-4fe4-a02f-05aef327c782", codes "ASK")
    ∷ (codes "c0b406a4-a803-4952-9743-3fb6014cd0ae", codes "ARK")
    ∷ []

-- `KNOWN_GUIDS.get(guid, guid)`
unfoldable pub name_of : Text → Text
unfolding lookup known_guids uuid_text
name_of raw_guid = given_or (lookup (uuid_text raw_guid) known_guids) (uuid_text raw_guid)

-- The loop over the entries from `start` on, with the starts that are left; where none is left,
-- its `else`.
unfoldable pub scan :
    (left start : ℕ) → (blob : Text) → Dict Text → Result CertTableError (Dict Text)
scan zero start blob out = err no_terminator
scan (suc left) start blob out =
    let entry = slice blob start (start + entry_size) in
    let offset = from_le (slice entry 16 20) in
    let size = from_le (slice entry 20 24) in
    let skipped = scan left (start + entry_size) blob out in
    let taken =
      scan left (start + entry_size) blob
        (insert (name_of (slice entry 0 16)) (slice blob offset (offset + size)) out) in
    if not (any_byte entry)
    then ok out
    else if size == 0
    then skipped
    else if ltb (length blob) (offset + size)
    then err outside_blob
    else taken

-- `range(0, len(blob) - ENTRY_SIZE + 1, ENTRY_SIZE)` has `len(blob) // ENTRY_SIZE` starts. A blob of
-- zeros is a host that gave nothing.
unfoldable pub parse_cert_table : Text → Result CertTableError (Dict Text)
parse_cert_table blob =
    if not (any_byte blob) then ok [] else scan (length blob / entry_size) 0 blob []
