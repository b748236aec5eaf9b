-- ===== src/Certs/Rotation.antt =====
-- internal/security/cert/rotator.go: the certificate that the rotator has.
use sssonector.Prelude.{
  Bool, Bool-cases, List, Option, Option-cases, [], arith, false, inl, inr, ltb, none, refl, some,
  true, ℕ, ◌+◌, ◌≡◌, ◌≤◌, ◌⊎◌,
}
use sssonector.Certs.{
  Certificate, ExtKeyUsage, FileStore, X509, ca, get_chain, intermediate, is_revoked, load_current,
  server, store, to_cert_pair, to_certificate, valid,
}
use sssonector.Certs.Manager.{Crypto, pool_of, validate}
use sssonector.Certs.Rotator.{
  RotationConfig, Rotator, Round, System, accepts, check_rotation, create_new, install, renew,
  start, validate_counted,
}
use sssonector.Certs.Kept.{store-load_current}

-- x509: without a root in the pool no chain is found.
abbrev pub NeedsRoots : Crypto → Type 0
NeedsRoots crypto =
    (now : ℕ) (usages : List ExtKeyUsage) (intermediates : List X509) (x : X509)
    → crypto.verify now usages [] intermediates x ≡ false

module _ (crypto : Crypto) (config : RotationConfig) where
  no_roots : (c : Certificate) → c.type ≡ server → pool_of crypto ca (get_chain c) ≡ []
  unfolding pool_of get_chain
  no_roots c h = rw h refl

  validate_server :
      (now : ℕ) (c : Certificate)
      → NeedsRoots crypto
      → c.type ≡ server
      → validate crypto now c ≡ false
  unfolding validate
  validate_server now c needs h =
      let refused =
        needs now c.x509.ext_key_usage (pool_of crypto intermediate (get_chain c)) c.x509 in
      elim (Bool-cases (is_revoked c.status)) [
        | inl revokes ↦ rw revokes refl
        | inr fine ↦ elim (Bool-cases (ltb c.x509.not_after now)) [
          | inl late ↦ rw (fine, late) refl
          | inr early ↦ rw (fine, early) (rw (no_roots c h) refused)
        ]
      ]

  accepts-server :
      (round : Round) (c : Certificate)
      → NeedsRoots crypto
      → c.type ≡ server
      → accepts crypto config round c ≡ false
  unfolding accepts
  accepts-server round c needs h = rw (validate_server round.now c needs h) refl

  -- Start always fails: it takes the certificate for one of a server, the chain that the store gives is
  -- the certificate alone, and without a root Verify refuses it.
  pub start_fails :
      (round : Round) (s : System) → NeedsRoots crypto → (start crypto config round s).0 ≡ false
  unfolding start validate_counted
  start_fails round s needs = elim (Option-cases (load_current s.files)) [
    | inl missing ↦ rw (start, missing) refl
    | inr (pair, at) ↦
        let refused =
          accepts-server round (record (to_certificate pair) { type = server; status = valid })
            needs refl in
        rw (start, at) (rw (validate_counted, refused) refl)
  ]

  -- The certificate after a check: the one before, or a new one that was accepted and is in the files,
  -- where the one before was within the window and is now the previous one.
  pub Rotates : Round → Certificate → Bool × System → Type 0
  Rotates round c (good, s) =
      (new : Certificate) × (s.rotator.current ≡ some new)
      × ((new ≡ c)
          ⊎ ((good ≡ true)
              × (s.rotator.previous ≡ some c)
              × (accepts crypto config round new ≡ true)
              × (load_current s.files ≡ some (to_cert_pair new))
              × (c.x509.not_after ≤ round.now + config.renewal_window)))

  install-Rotates :
      (round : Round) (c : Certificate) (r : Rotator) (made : Option Certificate × FileStore)
      → r.current ≡ some c
      → c.x509.not_after ≤ round.now + config.renewal_window
      → Rotates round c (install crypto config round r made)
  unfolding install validate_counted Rotates
  install-Rotates round c r (none, files) h due = (c, h, inl refl)
  install-Rotates round c r (some new, files) h due =
      elim (Bool-cases (accepts crypto config round new)) [
        | inr refused ↦ rw (install, validate_counted, refused) (c, h, inl refl)
        | inl accepted ↦ elim (Bool-cases (store round.restore (to_cert_pair new) files).0) [
          | inr failed ↦ rw (install, validate_counted, accepted, failed) (c, h, inl refl)
          | inl stored ↦
              rw (install, validate_counted, accepted, stored)
                (
                  new,
                  refl,
                  inr (
                    refl,
                    h,
                    accepted,
                    store-load_current round.restore (to_cert_pair new) files stored,
                    due,
                  ),
                )
        ]
      ]

  -- A check of the rotation never leaves the rotator without a certificate, and replaces the one that it
  -- has only within its renewal window, by a certificate that was accepted and is in the files.
  pub check_rotation-Rotates :
      (round : Round) (s : System) (c : Certificate)
      → s.rotator.current ≡ some c
      → Rotates round c (check_rotation crypto config round s)
  unfolding check_rotation validate_counted renew Rotates
  check_rotation-Rotates round s c h = elim (Bool-cases (accepts crypto config round c)) [
    | inr refused ↦ rw (check_rotation, h, validate_counted, refused) (c, h, inl refl)
    | inl accepted ↦ elim (Bool-cases (ltb (round.now + config.renewal_window) c.x509.not_after)) [
      | inl early ↦ rw (check_rotation, h, validate_counted, accepted, early) (c, h, inl refl)
      | inr due ↦
          rw (check_rotation, h, validate_counted, accepted, due)
            (install-Rotates round c _ (create_new crypto config round c s.files) h
              (ground (arith, due)))
    ]
  ]
