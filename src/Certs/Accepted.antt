-- ===== src/Certs/Accepted.antt =====
-- internal/security/cert: what the manager creates passes the checks of the validator.
use mathlib.Core.Path.{subst}
use sssonector.Certs.Rotator.{RotationConfig, Round, create_new, renewal}
use sssonector.Certs.Kept.{store-load_current}
use sssonector.Prelude.{
  Bool, Bool-cases, List, Option, Option-cases, String, [], arith, false, inl, inr, le→ltb, ltb,
  none, refl, some, true, ℕ, ◌*◌, ◌++◌, ◌+◌, ◌/◌, ◌∷◌, ◌≡◌, ◌≤◌,
}
use sssonector.Certs.{
  Certificate, CertificateType, Disk, ExtKeyUsage, FileStore, X509, ca, client, client_auth,
  intermediate, load_current, server, server_auth, store, to_cert_pair, unknown_type, valid,
}
use sssonector.Certs.Validator.{
  check_ca, check_client, check_server, check_type, has_usage, is_client_auth, is_server_auth,
  validate_certificate,
}
use sssonector.Certs.Manager.{
  CertificateRequest, Crypto, ca_template, create_ca, create_client, create_intermediate,
  create_server, create_under, issue, leaf_template,
}

-- A time in nanoseconds, without the part of a second.
abbrev pub whole_seconds : ℕ → ℕ
whole_seconds time = time / 1000000000 * 1000000000

-- x509: a certificate has the fields of its template, with its times cut to whole seconds.
abbrev pub written : X509 → X509
written template = record template {
  not_before = whole_seconds template.not_before;
  not_after = whole_seconds template.not_after;
}

abbrev pub UsesTemplate : Crypto → Type 0
UsesTemplate crypto =
    (template parent : X509) (key : ℕ) (x : X509)
    → crypto.create_certificate template parent key ≡ some x
    → x ≡ written template

has_usage_last :
    (is : ExtKeyUsage → Bool) (usages : List ExtKeyUsage) (last : ExtKeyUsage)
    → is last ≡ true
    → has_usage is (usages ++ (last ∷ [])) ≡ true
unfolding has_usage
has_usage_last is [] last h = rw h refl
has_usage_last is (usage ∷ usages) last h = elim (Bool-cases (is usage)) [
  | inl found ↦ rw found refl
  | inr other ↦ rw other (has_usage_last is usages last h)
]

module _ (crypto : Crypto) (uses : UsesTemplate crypto) where
  -- A certificate of the type, by the template, in the files.
  Issued : CertificateType → X509 → Option Certificate × FileStore → Certificate → Type 0
  Issued type template result new =
      (new.type ≡ type)
      × (new.status ≡ valid)
      × (new.x509 ≡ written template)
      × (load_current result.1 ≡ some (to_cert_pair new))

  issue-Issued :
      (disk : Disk) (type : CertificateType) (issuer : String) (template parent : X509)
      (sign_key : ℕ → ℕ) (key : ℕ) (s : FileStore) (new : Certificate)
      → let result =
          issue crypto disk type issuer
            (λ k. crypto.create_certificate template parent (sign_key k))
            key
            s in
        result.0 ≡ some new → Issued type template result new
  unfolding issue Issued
  issue-Issued disk type issuer template parent sign_key key s new h =
      elim (Option-cases (crypto.create_certificate template parent (sign_key key))) [
        | inl failed ↦ absurd (ground (arith, failed, h))
        | inr (x, at) ↦
            let c : Certificate = record {
              x509 = x;
              private_key = key;
              type = type;
              status = valid;
              serial_number = x.serial_number;
              issuer_serial = issuer;
            } in
            elim (Bool-cases (store disk (to_cert_pair c) s).0) [
              | inr bad ↦ absurd (ground (arith, at, bad, h))
              | inl stored ↦
                  let same : c ≡ new = ground (arith, at, stored, h) in
                  let kept : load_current
                        (issue crypto disk type issuer
                          (λ k. crypto.create_certificate template parent (sign_key k)) key s).1
                      ≡ some (to_cert_pair c) =
                    rw (issue, at) (store-load_current disk (to_cert_pair c) s stored) in
                  subst
                    (Issued type template (
                      issue crypto disk type issuer
                        (λ k. crypto.create_certificate template parent (sign_key k)) key s))
                    same (refl, refl, uses template parent (sign_key key) x at, kept)
            ]
      ]

  create_ca-Issued :
      (disk : Disk) (serial : String) (req : CertificateRequest) (s : FileStore) (new : Certificate)
      → (create_ca crypto disk serial req s).0 ≡ some new
      → Issued ca (ca_template serial req) (create_ca crypto disk serial req s) new
  unfolding create_ca
  create_ca-Issued disk serial req s new h =
      elim (Option-cases (crypto.generate_key req.key_size)) [
        | inl missing ↦ absurd (ground (arith, missing, h))
        | inr (key, at) ↦
            let template = ca_template serial req in
            rw (create_ca, at)
              (issue-Issued disk ca "" template template (λ k. k) key s new
                (subst
                  (λ o.
                    (elim o as (λ x. Option Certificate × FileStore) [
                      | none ↦ (none, s)
                      | some k ↦
                          issue crypto disk ca "" (crypto.create_certificate template template) k s
                    ]).0
                    ≡ some new)
                  at h))
      ]

  create_under-Issued :
      (type : CertificateType) (template : X509) (key_size : ℕ) (parent : Certificate) (disk : Disk)
      (s : FileStore) (new : Certificate)
      → (create_under crypto type template key_size parent disk s).0 ≡ some new
      → Issued type template (create_under crypto type template key_size parent disk s) new
  create_under-Issued type template key_size parent disk s new h =
      elim (Option-cases (crypto.generate_key key_size)) [
        | inl missing ↦ absurd (ground (arith, missing, h))
        | inr (key, at) ↦
            rw (create_under, at)
              (issue-Issued disk type parent.serial_number template parent.x509
                (λ _. parent.private_key) key s new
                (subst
                  (λ o.
                    (elim o as (λ x. Option Certificate × FileStore) [
                      | none ↦ (none, s)
                      | some k ↦
                          issue crypto disk type parent.serial_number
                            (λ _. crypto.create_certificate template parent.x509 parent.private_key)
                            k s
                    ]).0
                    ≡ some new)
                  at h))
      ]

  validates :
      (now : ℕ) (type : CertificateType) (template : X509) (result : Option Certificate × FileStore)
      (new : Certificate)
      → Issued type template result new
      → whole_seconds template.not_before ≤ now
      → now ≤ whole_seconds template.not_after
      → check_type type (written template) ≡ none
      → (validate_certificate now new ≡ none)
        × (new.type ≡ type)
        × (load_current result.1 ≡ some (to_cert_pair new))
  unfolding validate_certificate Issued
  validates now type template result new (same_type, same_status, same_x509, kept) past due good =
      let early : ltb now (whole_seconds template.not_before) ≡ false = le→ltb _ _ past in
      let late : ltb (whole_seconds template.not_after) now ≡ false = le→ltb _ _ due in
      (
        rw (validate_certificate, same_type, same_status, same_x509, early, late) good,
        same_type,
        kept,
      )

  leaf_checks :
      (serial : String) (req : CertificateRequest)
      → (check_server (written (leaf_template server_auth serial req)) ≡ none)
        × (check_client (written (leaf_template client_auth serial req)) ≡ none)
  unfolding check_server check_client
  leaf_checks serial req = (
    rw (has_usage_last is_server_auth req.ext_key_usage server_auth refl) refl,
    rw (has_usage_last is_client_auth req.ext_key_usage client_auth refl) refl,
  )

  ca_checks :
      (serial : String) (req : CertificateRequest)
      → check_ca (written (ca_template serial req)) ≡ none
  unfolding check_ca
  ca_checks serial req = refl

  begun : (now : ℕ) → whole_seconds now ≤ now
  begun now = omega arith

  ends : (now window : ℕ) → 500000000 ≤ window → now ≤ whole_seconds (now + window * 2)
  ends now window h = omega arith

  -- The switch on the type.
  abbrev create_as :
      RotationConfig
      → Round
      → Certificate
      → FileStore
      → CertificateType
      → Option Certificate × FileStore
  create_as config round old files type = elim type [
    | unknown_type ↦ (none, files)
    | ca ↦ create_ca crypto round.disk round.serial (renewal crypto config round old) files
    | intermediate ↦
        create_intermediate crypto round.disk round.serial (renewal crypto config round old) old
          files
    | server ↦
        create_server crypto round.disk round.serial (renewal crypto config round old) old files
    | client ↦
        create_client crypto round.disk round.serial (renewal crypto config round old) old files
  ]

  create_as-validates :
      (config : RotationConfig) (round : Round) (old : Certificate) (files : FileStore)
      (new : Certificate) (type : CertificateType)
      → 500000000 ≤ config.renewal_window
      → (create_as config round old files type).0 ≡ some new
      → (validate_certificate round.now new ≡ none)
        × (new.type ≡ type)
        × (load_current (create_as config round old files type).1 ≡ some (to_cert_pair new))
  unfolding create_intermediate create_server create_client
  create_as-validates config round old files new unknown_type window h = absurd (ground (arith, h))
  create_as-validates config round old files new ca window h =
      validates round.now ca _ _ new
        (create_ca-Issued round.disk round.serial (renewal crypto config round old) files new h)
        (begun round.now) (ends round.now config.renewal_window window)
        (ca_checks round.serial (renewal crypto config round old))
  create_as-validates config round old files new intermediate window h =
      validates round.now intermediate _ _ new
        (create_under-Issued intermediate _ config.key_size old round.disk files new h)
        (begun round.now) (ends round.now config.renewal_window window)
        (ca_checks round.serial (renewal crypto config round old))
  create_as-validates config round old files new server window h =
      validates round.now server _ _ new
        (create_under-Issued server _ config.key_size old round.disk files new h) (begun round.now)
        (ends round.now config.renewal_window window)
        (leaf_checks round.serial (renewal crypto config round old)).0
  create_as-validates config round old files new client window h =
      validates round.now client _ _ new
        (create_under-Issued client _ config.key_size old round.disk files new h) (begun round.now)
        (ends round.now config.renewal_window window)
        (leaf_checks round.serial (renewal crypto config round old)).1

  -- A certificate that a check creates in place of another passes the checks of the validator at that
  -- time, is of the type of the other, and is the pair in the files, where the renewal window is at
  -- least half a second and x509 makes certificates by their templates, with the times cut to whole
  -- seconds.
  pub create_new-validate_certificate :
      (config : RotationConfig) (round : Round) (old : Certificate) (files : FileStore)
      (new : Certificate)
      → 500000000 ≤ config.renewal_window
      → (create_new crypto config round old files).0 ≡ some new
      → (validate_certificate round.now new ≡ none)
        × (new.type ≡ old.type)
        × (load_current (create_new crypto config round old files).1 ≡ some (to_cert_pair new))
  unfolding create_new
  create_new-validate_certificate config round old files new =
      create_as-validates config round old files new old.type
