-- ===== src/Certs/Rotator.antt =====
-- internal/security/cert/rotator.go (CertificateRotator): when the certificate is replaced. The time, the
-- answers of the OCSP servers, the disks and the serial number of a check are its arguments; the
-- timers are explicit steps. A time before 0 is 0, and a check is made in one instant.
use sssonector.Prelude.{
  Bool, List, Option, String, [], false, if◌then◌else◌, ltb, none, not, some, suc, true, u64, zero,
  ℕ, ◌*◌, ◌+◌, ◌-◌,
}
use sssonector.Certs.{
  Certificate, Disk, FileStore, RevocationList, X509, ca, client, intermediate, load_current,
  server, store, to_cert_pair, to_certificate, unknown_type, valid, validate_crl, validate_ocsp,
}
use sssonector.Certs.Manager.{
  CertificateRequest, Crypto, create_ca, create_client, create_intermediate, create_server, revoke,
  validate,
}

pub record RotationConfig : Type 0 where
  pub renewal_window : ℕ
  pub key_size : ℕ

pub record Rotator : Type 0 where
  pub current : Option Certificate
  pub previous : Option Certificate
  pub last_rotation : ℕ
  pub next_rotation : ℕ
  pub rotation_attempts : ℕ  -- int64
  pub rotation_errors : ℕ  -- int64
  pub validation_errors : ℕ  -- int64

unfoldable pub new_certificate_rotator : Rotator
new_certificate_rotator = record {
  current = none;
  previous = none;
  last_rotation = 0;
  next_rotation = 0;
  rotation_attempts = 0;
  rotation_errors = 0;
  validation_errors = 0;
}

-- The rotator and the files of its manager's store.
pub record System : Type 0 where
  pub rotator : Rotator
  pub files : FileStore

-- What a check meets: the time, the answers of the OCSP servers, the disk when the manager stores the
-- new certificate and when the rotator stores it again, and the serial number.
pub record Round : Type 0 where
  pub now : ℕ
  pub ocsp : List Bool
  pub disk : Disk
  pub restore : Disk
  pub serial : String

abbrev pub failed_validation : Rotator → Rotator
failed_validation r = record r { validation_errors = u64 (suc r.validation_errors) }

abbrev pub crl_now : ℕ → RevocationList
crl_now now = record {
  this_update = now;
  next_update = now + 86400000000000;
  revoked_certificates = [];
}

-- The loop over the distribution points, each with an empty list.
unfoldable pub crls_pass : ℕ → ℕ → X509 → Bool
crls_pass zero now x = true
crls_pass (suc points) now x =
    let rest = crls_pass points now x in
    if not (validate_crl now x (some (crl_now now))) then false else rest

module _ (crypto : Crypto) (config : RotationConfig) where
  open config use {renewal_window, key_size}

  unfoldable pub accepts : Round → Certificate → Bool
  accepts round c =
      if not (validate crypto round.now c)
      then false
      else if not (crls_pass c.x509.crl_distribution_points round.now c.x509)
      then false
      else if ltb 0 c.x509.ocsp_server
      then validate_ocsp round.ocsp
      else true

  -- `validateCertificate`, which counts a failure.
  unfoldable pub validate_counted : Round → Certificate → Rotator → Bool × Rotator
  validate_counted round c r = if accepts round c then (true, r) else (false, failed_validation r)

  abbrev pub renewal : Round → Certificate → CertificateRequest
  renewal round c = record {
    key_usage = c.x509.key_usage;
    ext_key_usage = c.x509.ext_key_usage;
    not_before = round.now;
    not_after = round.now + renewal_window * 2;
    key_size = key_size;
  }

  -- The switch on the type of the certificate.
  unfoldable pub create_new : Round → Certificate → FileStore → Option Certificate × FileStore
  create_new round c files = elim c.type [
    | unknown_type ↦ (none, files)
    | ca ↦ create_ca crypto round.disk round.serial (renewal round c) files
    | intermediate ↦ create_intermediate crypto round.disk round.serial (renewal round c) c files
    | server ↦ create_server crypto round.disk round.serial (renewal round c) c files
    | client ↦ create_client crypto round.disk round.serial (renewal round c) c files
  ]

  abbrev pub rotated : Round → Certificate → Rotator → Rotator
  rotated round new r = record r {
    previous = r.current;
    current = some new;
    last_rotation = round.now;
    next_rotation = new.x509.not_after - renewal_window;
  }

  -- From the new certificate on.
  unfoldable pub install : Round → Rotator → Option Certificate × FileStore → Bool × System
  install round r (none, files) = (false, record { rotator = r; files = files })
  install round r (some new, files) =
      let (good, r2) = validate_counted round new r in
      let (stored, after) = store round.restore (to_cert_pair new) files in
      if not good
      then (false, record { rotator = r2; files = files })
      else if not stored
      then (false, record { rotator = r2; files = after })
      else (true, record { rotator = rotated round new r2; files = after })

  unfoldable pub renew : Round → Certificate → Rotator → FileStore → Bool × System
  renew round c r files =
      let counted = record r { rotation_attempts = u64 (suc r.rotation_attempts) } in
      install round counted (create_new round c files)

  -- True is that there was no error.
  unfoldable pub check_rotation : Round → System → Bool × System
  check_rotation round s = elim s.rotator.current [
    | none ↦ (false, s)
    | some c ↦
        let (good, r) = validate_counted round c s.rotator in
        if not good
        then (false, record s { rotator = r })
        else if ltb (round.now + renewal_window) c.x509.not_after
        then (true, record s { rotator = r })
        else renew round c r s.files
  ]

  -- A tick of the monitor.
  unfoldable pub monitor_tick : Round → System → System
  monitor_tick round s =
      let (good, after) = check_rotation round s in
      let r = after.rotator in
      if good
      then after
      else record after { rotator = record r { rotation_errors = u64 (suc r.rotation_errors) } }

  -- The end of the grace period of a certificate.
  unfoldable pub end_grace : Disk → Certificate → System → System
  end_grace disk old s = record {
    rotator = record s.rotator { previous = none };
    files = (revoke disk old.serial_number s.files).1;
  }

  abbrev pub started : Round → Certificate → Rotator → Rotator
  started round c r = record r {
    current = some c;
    last_rotation = round.now;
    next_rotation = c.x509.not_after - renewal_window;
  }

  -- The error of the check at the end is only logged.
  unfoldable pub start : Round → System → Bool × System
  start round s = elim (load_current s.files) [
    | none ↦ (false, s)
    | some pair ↦
        let c = record (to_certificate pair) { type = server; status = valid } in
        let (good, r) = validate_counted round c s.rotator in
        if not good
        then (false, record s { rotator = r })
        else (true, (check_rotation round (record s { rotator = started round c r })).1)
  ]
