-- ===== src/Tests/Chain.antt =====
-- The theorems about chain reads at concrete inputs.
use sentinel_subnet.Registry.Manifest.{head_line, manifest_line}
use sentinel_subnet.Chain.Discovery.{Neuron, mapped, no_axon}
use sentinel_subnet.Chain.Commitment.{
  CommitmentField, alone, as_hex, as_text, keyed, mapping, plain, read_manifest,
  read_manifest-published, text,
}
use sentinel_subnet.Base.Result.{ok}
use sentinel_subnet.Base.Text.{Text, codes, is_space, lower, starts_with, strip}
use sentinel_subnet.Base.Int.{pos}
use sentinel_subnet.Base.Decimal.{decimal, digits_before}
use sentinel_subnet.Base.Bytes.{IsBytes, to_hex}
use sentinel_subnet.Base.{List, [], all, arith, false, not, refl, some, true, ◌++◌, ◌∷◌, ◌≡◌}

abbrev head : Text
head = codes "sentinel-measurements v1 eff=6500 sha256=abCD"

abbrev url : Text
url = codes "https://host/list"

publishes : manifest_line (codes "abCD") 6500 url ≡ ok (head, url)
unfolding manifest_line head_line decimal digits_before
publishes = refl

a_word : all (λ k. not (is_space k)) (codes "abCD") ≡ true
unfolding is_space
a_word = refl

head-IsBytes : IsBytes head
head-IsBytes = omega arith

no_hex : starts_with url (codes "0x") ≡ false
unfolding starts_with
no_hex = refl

abbrev posted_fields : List CommitmentField
posted_fields =
    mapping ((codes "Raw45", text (codes "0x" ++ to_hex head)) ∷ []) ∷ plain (text url) ∷ []

read_manifest-published_example :
    read_manifest (λ s. s) (λ block. some posted_fields) (some 6000)
    ≡ some (pos 6500, lower (codes "abCD"), strip url)
read_manifest-published_example =
    read_manifest-published (λ s. s) (codes "abCD") url head url 6500
      (mapping ((codes "Raw45", text (codes "0x" ++ to_hex head)) ∷ [])) (plain (text url))
      (λ block. some posted_fields) (some 6000) a_word publishes (λ e. cc e)
      (keyed (codes "Raw45") (text (codes "0x" ++ to_hex head)) (as_hex head head-IsBytes refl))
      (alone (text url) (as_text no_hex)) refl

abbrev validator : Neuron
validator = record { uid = 1; hotkey = codes "5V"; axon = no_axon; validator_permit = true }

abbrev miner : Neuron
miner = record {
  uid = 2;
  hotkey = codes "5M";
  axon = mapped (some (codes "10.0.0.2")) (some 8091);
  validator_permit = false;
}
