-- ===== src/SevSnp/Certs/Cache.antt =====
-- `fetch_cert_chain` and `fetch_vcek` of sentinel/sevsnp/certs.py. The directory of the cache is a
-- dictionary from names to contents; what AMD serves at an address, where `none` is no answer, and the
-- readers of certificates are arguments.
use sentinel_subnet.SevSnp.Report.{TcbVersion, chip_id_hex}
use sentinel_subnet.SevSnp.Certs.{
  CertChain, CertificateError, Pki, fetch_failed, load_cert_chain, unknown_product,
}
use sentinel_subnet.Base.Result.{Result, err, map_err, or_raise, ◌>>=◌}
use sentinel_subnet.Base.Text.{Text, codes, member}
use sentinel_subnet.Base.Dict.{Dict, insert, lookup, lookup-insert_self}
use sentinel_subnet.Base.Decimal.{decimal}
use sentinel_subnet.Base.{
  Bool-cases, List, Option, Option-cases, [], ap, arith, if◌then◌else◌, inl, inr, ltb, none, refl,
  some, sym, ℕ, ◌++◌, ◌∙◌, ◌∷◌, ◌≡◌, ◌≢◌,
}

-- `CertificateError`, or the `ValueError` of a reader of certificates.
pub data FetchError : Type 0 where
  rejected : CertificateError → FetchError
  unreadable : FetchError

abbrev pub products : List Text
products = codes "Milan" ∷ codes "Genoa" ∷ codes "Turin" ∷ []

abbrev pub kds_base : Text
kds_base = codes "https://kdsintf.amd.com/vcek/v1"

abbrev pub chain_name : (product : Text) → Text
chain_name product = product ++ codes "-cert_chain.pem"

abbrev pub chain_url : (product : Text) → Text
chain_url product = kds_base ++ (b'/' ∷ product) ++ codes "/cert_chain"

-- `f"{n:02d}"`
unfoldable pub two_digits : ℕ → Text
unfolding decimal
two_digits n = if ltb n 10 then b'0' ∷ decimal n else decimal n

unfoldable pub vcek_name : (product chip_id_hex : Text) → TcbVersion → Text
unfolding decimal
vcek_name product chip_id_hex tcb =
    product
    ++ (b'-' ∷ chip_id_hex)
    ++ (b'-' ∷ decimal tcb.bootloader)
    ++ (b'-' ∷ decimal tcb.tee)
    ++ (b'-' ∷ decimal tcb.snp)
    ++ (b'-' ∷ decimal tcb.microcode)
    ++ codes ".der"

unfoldable pub vcek_url : (product chip_id_hex : Text) → TcbVersion → Text
unfolding two_digits
vcek_url product chip_id_hex tcb =
    kds_base
    ++ (b'/' ∷ product)
    ++ (b'/' ∷ chip_id_hex)
    ++ (codes "?blSPL=" ++ two_digits tcb.bootloader)
    ++ (codes "&teeSPL=" ++ two_digits tcb.tee)
    ++ (codes "&snpSPL=" ++ two_digits tcb.snp)
    ++ (codes "&ucodeSPL=" ++ two_digits tcb.microcode)

-- The file of that name, or a download that is kept under it.
unfoldable pub from_cache :
    (download : Text → Option Text) (name url : Text) → Dict Text → Option Text × Dict Text
unfolding lookup insert
from_cache download name url cache = elim (lookup name cache) [
  | some content ↦ (some content, cache)
  | none ↦ elim (download url) [
    | none ↦ (none, cache)
    | some content ↦ (some content, insert name content cache)
  ]
]

-- What a name holds after a fetch is what was fetched.
from_cache-kept :
    (download : Text → Option Text) (name url : Text) (cache : Dict Text) (content : Text)
    → (from_cache download name url cache).0 ≡ some content
    → lookup name (from_cache download name url cache).1 ≡ some content
unfolding from_cache
from_cache-kept download name url cache content h =
    ground (arith, h, lookup-insert_self name content cache)

hit :
    (later : Text → Option Text) (name url : Text) (cache : Dict Text) (content : Text)
    → lookup name cache ≡ some content
    → from_cache later name url cache ≡ (some content, cache)
unfolding from_cache
hit later name url cache content h = ground (arith, h)

from_cache-again :
    (download later : Text → Option Text) (name url : Text) (cache : Dict Text) (content : Text)
    → (from_cache download name url cache).0 ≡ some content
    → from_cache later name url (from_cache download name url cache).1
      ≡ from_cache download name url cache
from_cache-again download later name url cache content h =
    let fetched = from_cache download name url cache in
    hit later name url fetched.1 content (from_cache-kept download name url cache content h)
    ∙ ap (λ (o : Option Text). (o, fetched.1)) (sym h)

module _ {Cert Key : Type 0} (k : Pki Cert Key) (load_pem : Text → Option (List Cert)) where
  unfoldable pub read_chain :
      (product : Text) (pem : Option Text) → Result FetchError (CertChain Cert)
  unfolding load_cert_chain
  read_chain product pem = do
    content ← or_raise pem (rejected fetch_failed)
    certs ← or_raise (load_pem content) unreadable
    map_err rejected (load_cert_chain k product certs)

  unfoldable pub fetch_cert_chain :
      (download : Text → Option Text) (product : Text)
      → Dict Text
      → Result FetchError (CertChain Cert) × Dict Text
  unfolding member from_cache read_chain
  fetch_cert_chain download product cache =
      let fetched = from_cache download (chain_name product) (chain_url product) cache in
      if member product products
      then (read_chain product fetched.0, fetched.1)
      else (err (rejected unknown_product), cache)

  chain_again :
      (download later : Text → Option Text) (product : Text) (cache : Dict Text)
      → (fetch_cert_chain download product cache).0 ≢ err (rejected fetch_failed)
      → fetch_cert_chain later product (fetch_cert_chain download product cache).1
        ≡ fetch_cert_chain download product cache
  unfolding fetch_cert_chain read_chain
  chain_again download later product cache got =
      let fetched = from_cache download (chain_name product) (chain_url product) cache in
      elim (Bool-cases (member product products)) [
        | inr unknown ↦ rw unknown refl
        | inl known ↦ elim (Option-cases fetched.0) [
          | inr (content, e) ↦ rw known (
              ap (λ (f : Option Text × Dict Text). (read_chain product f.0, f.1))
                (from_cache-again download later (chain_name product) (chain_url product) cache
                  content e))
          | inl e ↦ absurd (got (rw (known, e) refl))
        ]
      ]

module _ {Cert : Type 0} (load_der : Text → Option Cert) where
  unfoldable pub read_vcek : (der : Option Text) → Result FetchError Cert
  read_vcek der = do
    content ← or_raise der (rejected fetch_failed)
    or_raise (load_der content) unreadable

  unfoldable pub fetch_vcek :
      (download : Text → Option Text) (product chip_id_hex : Text)
      → TcbVersion
      → Dict Text
      → Result FetchError Cert × Dict Text
  unfolding vcek_name vcek_url from_cache read_vcek
  fetch_vcek download product chip_id_hex tcb cache =
      let fetched =
        from_cache download (vcek_name product chip_id_hex tcb) (vcek_url product chip_id_hex tcb)
          cache in
      (read_vcek fetched.0, fetched.1)

  vcek_again :
      (download later : Text → Option Text) (product chip_id_hex : Text) (tcb : TcbVersion)
      (cache : Dict Text)
      → (fetch_vcek download product chip_id_hex tcb cache).0 ≢ err (rejected fetch_failed)
      → fetch_vcek later product chip_id_hex tcb
          (fetch_vcek download product chip_id_hex tcb cache).1
        ≡ fetch_vcek download product chip_id_hex tcb cache
  unfolding fetch_vcek read_vcek
  vcek_again download later product chip_id_hex tcb cache got =
      let name = vcek_name product chip_id_hex tcb in
      let url = vcek_url product chip_id_hex tcb in
      elim (Option-cases (from_cache download name url cache).0) [
        | inr (content, e) ↦
            ap (λ (f : Option Text × Dict Text). (read_vcek f.0, f.1))
              (from_cache-again download later name url cache content e)
        | inl e ↦ absurd (got (rw e refl))
      ]

module _ {Cert Key : Type 0} (k : Pki Cert Key) (load_pem : Text → Option (List Cert))
    (load_der : Text → Option Cert) where
  -- Whatever AMD serves later, and whether or not what was downloaded is certificates: a fetch of a
  -- chain, or of a processor's certificate, that got an answer once gives the same result again, and the
  -- cache stays as it is.
  pub fetch-again :
      (download later : Text → Option Text) (product chip_id_hex : Text) (tcb : TcbVersion)
      (cache : Dict Text)
      → (fetch_cert_chain k load_pem download product cache).0 ≢ err (rejected fetch_failed)
      → (fetch_vcek load_der download product chip_id_hex tcb cache).0 ≢ err (rejected fetch_failed)
      → (fetch_cert_chain k load_pem later product
            (fetch_cert_chain k load_pem download product cache).1
          ≡ fetch_cert_chain k load_pem download product cache)
        × (fetch_vcek load_der later product chip_id_hex tcb
              (fetch_vcek load_der download product chip_id_hex tcb cache).1
            ≡ fetch_vcek load_der download product chip_id_hex tcb cache)
  fetch-again download later product chip_id_hex tcb cache chain_got vcek_got = (
    chain_again k load_pem download later product cache chain_got,
    vcek_again load_der download later product chip_id_hex tcb cache vcek_got,
  )
