-- ===== src/Certs/Kept.antt =====
-- internal/security/cert/store.go: what the two files keep.
use sssonector.Prelude.{
  Bool-cases, Option-cases, String, arith, if◌then◌else◌, inl, inr, none, refl, some, true, ◌==◌,
  ◌∙◌, ◌≡◌,
}
use sssonector.Prelude.{string_eq}
use sssonector.Certs.{
  CertPair, Certificate, CertificateStatus, Disk, FileStore, Write, broken, load, load_current,
  store, to_cert_pair, to_certificate, untouched, update_status, valid, whole,
}

-- A store that answers no error has written both files.
pub store-load_current :
    (disk : Disk) (pair : CertPair) (s : FileStore)
    → (store disk pair s).0 ≡ true
    → load_current (store disk pair s).1 ≡ some pair
unfolding store load_current
store-load_current disk pair s h = elim (Bool-cases disk.mkdir_all) [
  | inr bad ↦ absurd (ground (arith, bad, h))
  | inl made ↦ go disk.write_cert disk.write_key made h
]
  where
    go :
        (cert_write key_write : Write)
        → disk.mkdir_all ≡ true
        → (store (record disk { write_cert = cert_write; write_key = key_write }) pair s).0 ≡ true
        → load_current
            (store (record disk { write_cert = cert_write; write_key = key_write }) pair s).1
          ≡ some pair
    go whole whole made g = rw made refl
    go whole untouched made g = absurd (ground (arith, made, g))
    go whole broken made g = absurd (ground (arith, made, g))
    go untouched key_write made g = absurd (ground (arith, made, g))
    go broken key_write made g = absurd (ground (arith, made, g))

-- A pair that was stored without an error is what Load answers for its serial number, as a valid
-- certificate, and for any other serial number Load answers an error.
pub load-store :
    (disk : Disk) (pair : CertPair) (s : FileStore) (serial_number : String)
    → (store disk pair s).0 ≡ true
    → load serial_number (store disk pair s).1
      ≡ (if pair.cert.serial_number == serial_number then some (to_certificate pair) else none)
unfolding load
load-store disk pair s serial_number h =
    let kept = store-load_current disk pair s h in
    elim (Bool-cases (pair.cert.serial_number == serial_number)) [
      | inl same ↦ rw (load, kept, same) refl
      | inr other ↦ rw (load, kept, other) refl
    ]

-- A change of status that answers no error changes nothing: Load answers the same certificate as
-- before, and as a valid one, also where the new status is revoked.
pub update_status-load :
    (disk : Disk) (serial_number : String) (status : CertificateStatus) (s : FileStore)
    → (update_status disk serial_number status s).0 ≡ true
    → (c : Certificate) × (load serial_number s ≡ some c)
      × (load serial_number (update_status disk serial_number status s).1 ≡ some c)
      × (c.status ≡ valid)
unfolding update_status load to_certificate to_cert_pair
update_status-load disk serial_number status s h = elim (Option-cases (load_current s)) [
  | inl missing ↦ absurd (ground (arith, missing, h))
  | inr (pair, at) ↦ elim (Bool-cases (pair.cert.serial_number == serial_number)) [
    | inr other ↦ absurd (ground (arith, at, other, h))
    | inl same ↦
        let found : load serial_number s ≡ some (to_certificate pair) = rw (load, at, same) refl in
        let stored : (store disk pair s).0 ≡ true = ground (arith, at, same, h) in
        (
          to_certificate pair,
          found,
          rw (update_status, found) (load-store disk pair s serial_number stored ∙ rw same refl),
          refl,
        )
  ]
]
