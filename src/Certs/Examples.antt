-- ===== src/Certs/Examples.antt =====
-- Certificates that are their templates, with times in whole seconds.
use sssonector.Prelude.{Bool, List, [], arith, false, none, refl, some, true, ◌∷◌, ◌≡◌}
use sssonector.Prelude.{string_eq}
use sssonector.Certs.{
  CertPair, Certificate, Disk, FileStore, KeyUsage, X509, ca, get_chain, load, load_current,
  revoked, store, to_cert_pair, to_certificate, untouched, update_status, valid, validate_crl,
  whole,
}
use sssonector.Certs.Manager.{Crypto, ca_template, create_ca, issue, pool_of, validate}
use sssonector.Certs.Validator.{validate_certificate}
use sssonector.Certs.Rotator.{
  RotationConfig, Round, System, accepts, check_rotation, create_new, crls_pass, install,
  new_certificate_rotator, renew, renewal, start, validate_counted,
}
use sssonector.Certs.Kept.{load-store, update_status-load}
use sssonector.Certs.Accepted.{create_new-validate_certificate, written}
use sssonector.Certs.Rotation.{Rotates, check_rotation-Rotates, start_fails}

abbrev trusts : List X509 → Bool
trusts [] = false
trusts (root ∷ roots) = true

abbrev toy : Crypto
toy = record {
  generate_key = λ size. some 7;
  create_certificate = λ template parent key. some (written template);
  verify = λ now usages roots intermediates x. trusts roots;
}

abbrev usage : KeyUsage
usage = record {
  digital_signature = true;
  key_encipherment = false;
  cert_sign = true;
  crl_sign = false;
}

abbrev root : X509
root = record {
  serial_number = "17";
  not_before = 0;
  not_after = 100000000000;
  is_ca = true;
  key_usage = usage;
  ext_key_usage = [];
  crl_distribution_points = 1;
  ocsp_server = 0;
}

abbrev root_pair : CertPair
root_pair = record { cert = root; key = 3 }

abbrev willing : Disk
willing = record { mkdir_all = true; write_cert = whole; write_key = whole }

-- The key cannot be opened for writing.
abbrev keyless : Disk
keyless = record { mkdir_all = true; write_cert = whole; write_key = untouched }

abbrev nothing : FileStore
nothing = record { cert_file = none; key_file = none }

abbrev stored : FileStore
stored = record { cert_file = some root; key_file = some 3 }

abbrev config : RotationConfig
config = record { renewal_window = 30000000000; key_size = 2048 }

abbrev round : Round
round = record { now = 80500000000; ocsp = []; disk = willing; restore = willing; serial = "18" }

load-store_example : load "17" (store willing root_pair nothing).1 ≡ some (to_certificate root_pair)
unfolding store
load-store_example = load-store willing root_pair nothing "17" refl

update_status-load_example :
    (c : Certificate) × (load "17" stored ≡ some c)
    × (load "17" (update_status willing "17" revoked stored).1 ≡ some c)
    × (c.status ≡ valid)
unfolding update_status load load_current store to_certificate to_cert_pair
update_status-load_example = update_status-load willing "17" revoked stored refl

-- A store that fails at the key leaves the new certificate beside the key of the old one.
mismatch_test :
    load_current
      (store keyless (record { cert = record root { serial_number = "19" }; key = 9 }) stored).1
    ≡ some (record { cert = record root { serial_number = "19" }; key = 3 })
unfolding store load_current
mismatch_test = refl

start_fails_example :
    (start toy config round (record { rotator = new_certificate_rotator; files = stored })).0
    ≡ false
start_fails_example =
    start_fails toy config round (record { rotator = new_certificate_rotator; files = stored })
      (λ now usages intermediates x. refl)

abbrev serving : System
serving = record {
  rotator = record new_certificate_rotator { current = some (to_certificate root_pair) };
  files = stored;
}

check_rotation-Rotates_example :
    Rotates toy config round (to_certificate root_pair) (check_rotation toy config round serving)
check_rotation-Rotates_example =
    check_rotation-Rotates toy config round serving (to_certificate root_pair) refl

rotated_test : (check_rotation toy config round serving).0 ≡ true
unfolding check_rotation validate_counted accepts validate get_chain pool_of crls_pass validate_crl
    renew create_new create_ca issue install store to_certificate to_cert_pair
rotated_test = refl

-- Where the disk fails at the second store of a check, the rotator keeps the certificate that it has,
-- and the files have the key of the new one, from the first store.
second_store_test :
    let (good, after) = check_rotation toy config (record round { restore = keyless }) serving in
    (good ≡ false)
    × (after.rotator.current ≡ some (to_certificate root_pair))
    × (after.files.key_file ≡ some 7)
unfolding check_rotation validate_counted accepts validate get_chain pool_of crls_pass validate_crl
    renew create_new create_ca issue install store to_certificate to_cert_pair
second_store_test = (refl, refl, refl)

abbrev old : Certificate
old = record {
  x509 = root;
  private_key = 3;
  type = ca;
  status = valid;
  serial_number = "17";
  issuer_serial = "";
}

abbrev created : Certificate
created = record {
  x509 = written (ca_template "18" (renewal toy config round old));
  private_key = 7;
  type = ca;
  status = valid;
  serial_number = "18";
  issuer_serial = "";
}

create_new-validate_certificate_example :
    (validate_certificate 80500000000 created ≡ none)
    × (created.type ≡ ca)
    × (load_current (create_new toy config round old stored).1 ≡ some (to_cert_pair created))
unfolding create_new create_ca issue store to_cert_pair
create_new-validate_certificate_example =
    create_new-validate_certificate toy (λ template parent key x h. ground (arith, h)) config round
      old stored created (omega arith) refl
