-- ===== src/Certs/Manager.antt =====
-- internal/security/cert/manager.go (Manager): certificates that are made, revoked and validated, over the
-- store of two files. Random serial numbers and the packages rsa and x509 are arguments.
use sssonector.Prelude.{
  Bool, List, Option, String, [], false, if◌then◌else◌, ltb, none, some, true, ℕ, ◌++◌, ◌∷◌,
}
use sssonector.Certs.{
  Certificate, CertificateType, Disk, ExtKeyUsage, FileStore, KeyUsage, X509, ca, client,
  client_auth, get_chain, intermediate, is_revoked, revoked, server, server_auth, store,
  to_cert_pair, type_eq, update_status, valid,
}

-- GenerateKey; CreateCertificate of a template by a parent and its key, read back; and Verify at a
-- time, for the usages of a key, with roots and intermediates.
pub record Crypto : Type 0 where
  pub generate_key : ℕ → Option ℕ
  pub create_certificate : X509 → X509 → ℕ → Option X509
  pub verify : ℕ → List ExtKeyUsage → List X509 → List X509 → X509 → Bool

pub record CertificateRequest : Type 0 where
  pub key_usage : KeyUsage
  pub ext_key_usage : List ExtKeyUsage
  pub not_before : ℕ
  pub not_after : ℕ
  pub key_size : ℕ

abbrev pub ca_template : String → CertificateRequest → X509
ca_template serial req = record {
  serial_number = serial;
  not_before = req.not_before;
  not_after = req.not_after;
  is_ca = true;
  key_usage = record req.key_usage { cert_sign = true; crl_sign = true };
  ext_key_usage = req.ext_key_usage;
  crl_distribution_points = 0;
  ocsp_server = 0;
}

abbrev pub leaf_template : ExtKeyUsage → String → CertificateRequest → X509
leaf_template auth serial req = record {
  serial_number = serial;
  not_before = req.not_before;
  not_after = req.not_after;
  is_ca = false;
  key_usage = record req.key_usage { key_encipherment = true; digital_signature = true };
  ext_key_usage = req.ext_key_usage ++ (auth ∷ []);
  crl_distribution_points = 0;
  ocsp_server = 0;
}

module _ (crypto : Crypto) where
  -- What the four functions share: the certificate of a key, stored.
  unfoldable pub issue :
      Disk
      → CertificateType
      → String
      → (ℕ → Option X509)
      → ℕ
      → FileStore
      → Option Certificate × FileStore
  issue disk type issuer sign key s = elim (sign key) [
    | none ↦ (none, s)
    | some x ↦
        let c : Certificate = record {
          x509 = x;
          private_key = key;
          type = type;
          status = valid;
          serial_number = x.serial_number;
          issuer_serial = issuer;
        } in
        let (stored, after) = store disk (to_cert_pair c) s in
        (if stored then some c else none, after)
  ]

  unfoldable pub create_ca :
      Disk → String → CertificateRequest → FileStore → Option Certificate × FileStore
  create_ca disk serial req s = elim (crypto.generate_key req.key_size) [
    | none ↦ (none, s)
    | some key ↦
        let template = ca_template serial req in
        issue disk ca "" (crypto.create_certificate template template) key s
  ]

  abbrev pub create_under :
      CertificateType → X509 → ℕ → Certificate → Disk → FileStore → Option Certificate × FileStore
  create_under type template key_size parent disk s = elim (crypto.generate_key key_size) [
    | none ↦ (none, s)
    | some key ↦
        issue disk type parent.serial_number
          (λ _. crypto.create_certificate template parent.x509 parent.private_key) key s
  ]

  unfoldable pub create_intermediate :
      Disk → String → CertificateRequest → Certificate → FileStore → Option Certificate × FileStore
  create_intermediate disk serial req parent s =
      create_under intermediate (ca_template serial req) req.key_size parent disk s

  unfoldable pub create_server :
      Disk → String → CertificateRequest → Certificate → FileStore → Option Certificate × FileStore
  create_server disk serial req parent s =
      create_under server (leaf_template server_auth serial req) req.key_size parent disk s

  unfoldable pub create_client :
      Disk → String → CertificateRequest → Certificate → FileStore → Option Certificate × FileStore
  create_client disk serial req parent s =
      create_under client (leaf_template client_auth serial req) req.key_size parent disk s

  -- The loop over the chain, for the type that goes into a pool.
  unfoldable pub pool_of : CertificateType → List Certificate → List X509
  pool_of type [] = []
  pool_of type (c ∷ chain) =
      let rest = pool_of type chain in if type_eq c.type type then c.x509 ∷ rest else rest

  unfoldable pub validate : ℕ → Certificate → Bool
  validate now c =
      let chain = get_chain c in
      if is_revoked c.status
      then false
      else if ltb c.x509.not_after now
      then false
      else crypto.verify now c.x509.ext_key_usage (pool_of ca chain) (pool_of intermediate chain)
          c.x509

unfoldable pub revoke : Disk → String → FileStore → Bool × FileStore
revoke disk serial_number s = update_status disk serial_number revoked s
