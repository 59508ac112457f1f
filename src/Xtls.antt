-- ===== src/Xtls.antt =====
-- xnet/xtls/ssl_pinning.go: the check of a server's certificate against the hash of its public key. The
-- parser of certificates, the encoder of keys and SHA-256 are parameters; C is x509.Certificate.
use opendevops_codo_golang_s.Go.Base64.{base64}
use opendevops_codo_golang_s.Common.{
  ◌∷◌, Bytes, ℕ, List, Option, ◌⊎◌, inl, inr, none, ◌≡◌, some, ◌↔◌, [], if◌then◌else◌, same, arith,
  refl, same_refl, same_iff,
}

pub record X509 (C : Type 0) : Type 0 where
  -- x509.ParseCertificate
  pub parse : Bytes → C ⊎ Bytes
  -- x509.MarshalPKIXPublicKey of the key of the certificate
  pub public_key : C → Bytes ⊎ Bytes
  pub sha256 : Bytes → Bytes

pub data PinError : Type 0 where
  no_certificates : PinError
  unparsed : Bytes → PinError
  mismatch : PinError

module _ {C : Type 0} (lib : X509 C) where
  -- CalCertPubHash: the text, which is empty beside an error.
  unfoldable pub cal_cert_pub_hash : C → Bytes × Option Bytes
  cal_cert_pub_hash cert = elim (lib.public_key cert) [
    | inl key ↦ (base64 (lib.sha256 key), none)
    | inr e ↦ ([], some e)
  ]

  -- Behind x509.ParseCertificate.
  abbrev compared : Bytes → C ⊎ Bytes → Option PinError
  compared excepted_hash (inr e) = some (unparsed e)
  compared excepted_hash (inl cert) =
      if same (cal_cert_pub_hash cert).0 excepted_hash then none else some mismatch

  -- The function that SSLPinningChecker returns; `none` is nil.
  unfoldable pub ssl_pinning_checker :
      (excepted_hash : Bytes) → (raw_certs : List Bytes) → Option PinError
  ssl_pinning_checker [] raw_certs = none
  ssl_pinning_checker (c ∷ h) [] = some no_certificates
  ssl_pinning_checker (c ∷ h) (raw ∷ rest) = compared (c ∷ h) (lib.parse raw)

  -- The first certificate has a public key with this hash.
  abbrev IsPinned : Bytes → List Bytes → Type 0
  IsPinned hash raw_certs =
      (raw : Bytes) × (rest : List Bytes) × (cert : C) × (key : Bytes) × (raw_certs ≡ raw ∷ rest)
      × (lib.parse raw ≡ inl cert)
      × (lib.public_key cert ≡ inl key)
      × (base64 (lib.sha256 key) ≡ hash)

  hash_inv :
      (cert : C) (key : Bytes ⊎ Bytes) (c : ℕ) (h : Bytes)
      → lib.public_key cert ≡ key
      → (cal_cert_pub_hash cert).0 ≡ c ∷ h
      → (k : Bytes) × (lib.public_key cert ≡ inl k) × (base64 (lib.sha256 k) ≡ c ∷ h)
  unfolding cal_cert_pub_hash
  hash_inv cert (inl k) c h e p = (k, e, ground (arith, e))
  hash_inv cert (inr e') c h e p = absurd (ground (arith, e))

  compared_inv :
      (c : ℕ) (h raw : Bytes) (rest : List Bytes) (parsed : C ⊎ Bytes)
      → lib.parse raw ≡ parsed
      → compared (c ∷ h) parsed ≡ none
      → IsPinned (c ∷ h) (raw ∷ rest)
  compared_inv c h raw rest (inr e) p n = absurd cc
  compared_inv c h raw rest (inl cert) p n =
      let equal : (cal_cert_pub_hash cert).0 ≡ c ∷ h =
        ground (arith, same_iff (cal_cert_pub_hash cert).0 (c ∷ h)) in
      let (k, e, b) = hash_inv cert (lib.public_key cert) c h refl equal in
      (raw, rest, cert, k, refl, p, e, b)

  pinned-compared :
      (hash raw : Bytes) (cert : C) (key : Bytes)
      → lib.parse raw ≡ inl cert
      → lib.public_key cert ≡ inl key
      → base64 (lib.sha256 key) ≡ hash
      → compared hash (lib.parse raw) ≡ none
  unfolding cal_cert_pub_hash
  pinned-compared hash raw cert key p k b = rw (p, cal_cert_pub_hash, k, b, same_refl hash) refl

  -- With a hash to expect, the check accepts exactly the connections whose first certificate parses and has a
  -- public key with that hash; a key that cannot be encoded is never accepted.
  ssl_pinning_checker_iff :
      (c : ℕ) (h : Bytes) (raw_certs : List Bytes)
      → (ssl_pinning_checker (c ∷ h) raw_certs ≡ none) ↔ IsPinned (c ∷ h) raw_certs
  unfolding ssl_pinning_checker
  ssl_pinning_checker_iff c h [] =
      ((λ e. absurd cc), (λ (raw, rest, cert, key, e, p, k, b). absurd cc))
  ssl_pinning_checker_iff c h (raw ∷ rest) = (
    compared_inv c h raw rest (lib.parse raw) refl,
    (λ (raw', rest', cert, key, e, p, k, b).
        let same_raw : raw ≡ raw' = cc in
        rw same_raw (pinned-compared (c ∷ h) raw' cert key p k b)),
  )
