-- ===== src/SevSnp/Certs/Anchor.antt =====
-- What a chain that passes says: it is anchored to the pinned root (sentinel/sevsnp/certs.py).
use sentinel_subnet.SevSnp.Certs.{
  CertChain, KeyKind, Pki, check_by_kind, elliptic_other, elliptic_p384, expected_root, milan_root,
  no_pinned_root, not_amd_root, not_self_signed, other_kind, require_p384, rsa,
  verify_cert_signature, verify_self, verify_vcek,
}
use sentinel_subnet.Base.Result.{>>=-eq-ok, ok, or_raise, or_raise-ok, raise_if, raise_if-ok}
use sentinel_subnet.Base.Text.{Text, codes, text_eq, text_eq_iff}
use sentinel_subnet.Base.{arith, none, not, refl, some, true, ◌∙◌, ◌≡◌, ◌≢◌}

expected_milan : expected_root none (codes "Milan") ≡ some milan_root
unfolding expected_root text_eq
expected_milan = refl

module _ {Cert Key : Type 0} (k : Pki Cert Key) where
  -- A signature of `key` over `cert` that was checked.
  pub record Signed (key : Key) (cert : Cert) : Type 0 where
    pub valid : k.verifies key cert ≡ true
    pub known_kind : k.kind key ≢ other_kind

  check_by_kind-ok :
      (kind : KeyKind) (cert : Cert) (key : Key)
      → check_by_kind k kind cert key ≡ ok tt
      → (k.verifies key cert ≡ true) × (kind ≢ other_kind)
  unfolding check_by_kind
  check_by_kind-ok rsa cert key h = ground arith
  check_by_kind-ok elliptic_p384 cert key h = ground arith
  check_by_kind-ok elliptic_other cert key h = ground arith
  check_by_kind-ok other_kind cert key h = cc h

  verify_cert_signature-Signed :
      (cert : Cert) (key : Key) → verify_cert_signature k cert key ≡ ok tt → Signed key cert
  unfolding verify_cert_signature
  verify_cert_signature-Signed cert key h =
      let (valid, known) = check_by_kind-ok (k.kind key) cert key h in
      record { valid = valid; known_kind = known }

  -- A chain whose root is its pinned one and whose links are signed.
  pub record Anchored (chain : CertChain Cert) : Type 0 where
    pub pinned : Text
    pub is_pinned : expected_root chain.expected_root_spki_sha256 chain.product ≡ some pinned
    pub root : k.spki_sha256 (k.public_key chain.ark) ≡ pinned
    pub self_signed : Signed (k.public_key chain.ark) chain.ark
    pub ask_signed : Signed (k.public_key chain.ark) chain.ask

  verify_self-Anchored : (chain : CertChain Cert) → verify_self k chain ≡ ok tt → Anchored chain
  unfolding verify_self
  verify_self-Anchored chain h =
      let (u₀, self_named, h₁) =
        >>=-eq-ok
          (raise_if (not (text_eq (k.subject chain.ark) (k.issuer chain.ark))) not_self_signed) _
          h in
      let (u₁, self_signed, h₂) =
        >>=-eq-ok (verify_cert_signature k chain.ark (k.public_key chain.ark)) _ h₁ in
      let (pinned, found, h₃) =
        >>=-eq-ok
          (or_raise (expected_root chain.expected_root_spki_sha256 chain.product) no_pinned_root) _
          h₂ in
      let (u₂, same, h₄) =
        >>=-eq-ok
          (raise_if (not (text_eq (k.spki_sha256 (k.public_key chain.ark)) pinned)) not_amd_root) _
          h₃ in
      record {
        pinned = pinned;
        is_pinned = or_raise-ok _ no_pinned_root found;
        root = ground (
          arith,
          raise_if-ok _ not_amd_root same,
          text_eq_iff (k.spki_sha256 (k.public_key chain.ark)) pinned,
        );
        self_signed = verify_cert_signature-Signed _ _ self_signed;
        ask_signed = verify_cert_signature-Signed _ _ h₄;
      }

  require_p384-ok : (kind : KeyKind) → require_p384 k kind ≡ ok tt → kind ≡ elliptic_p384
  unfolding require_p384
  require_p384-ok elliptic_p384 h = refl
  require_p384-ok _ h = cc h

  -- A chip's certificate is accepted only under a chain that is anchored to the pinned root, with
  -- the chip's certificate signed by the chain's signing key, and only with a P-384 key.
  pub verify_vcek-Anchored :
      (vcek : Cert) (chain : CertChain Cert)
      → verify_vcek k vcek chain ≡ ok tt
      → Anchored chain
        × Signed (k.public_key chain.ask) vcek
        × (k.kind (k.public_key vcek) ≡ elliptic_p384)
  unfolding verify_vcek
  verify_vcek-Anchored vcek chain h =
      let (u₀, self, h₁) = >>=-eq-ok (verify_self k chain) _ h in
      let (u₁, signed, h₂) =
        >>=-eq-ok (verify_cert_signature k vcek (k.public_key chain.ask)) _ h₁ in
      (
        verify_self-Anchored chain self,
        verify_cert_signature-Signed vcek _ signed,
        require_p384-ok _ h₂,
      )

  -- Whoever signs a whole chain with a root of their own gets no certificate accepted under it: if
  -- no other key has the fingerprint of AMD's Milan key, a chain for Milan with no fingerprint of
  -- its own is accepted only with AMD's key as its root, and its signing key is signed by that.
  pub forged_root_refused :
      (amd : Key) (vcek : Cert) (chain : CertChain Cert)
      → k.spki_sha256 amd ≡ milan_root
      → ((key : Key) → k.spki_sha256 key ≡ milan_root → key ≡ amd)
      → chain.product ≡ codes "Milan"
      → chain.expected_root_spki_sha256 ≡ none
      → verify_vcek k vcek chain ≡ ok tt
      → (k.public_key chain.ark ≡ amd) × Signed amd chain.ask
  forged_root_refused amd vcek chain fingerprint only milan own h =
      let (anchored, signed, p384) = verify_vcek-Anchored vcek chain h in
      let pinned : anchored.pinned ≡ milan_root =
        cc (anchored.is_pinned, own, milan, expected_milan) in
      let same = only (k.public_key chain.ark) (anchored.root ∙ pinned) in
      (same, rw same at anchored.ask_signed)
