-- ===== src/Certs.antt =====
-- internal/security/cert/types.go and store.go: certificates and the store of one pair in two files.
-- Of an x509 certificate the fields that the code reads; a key is its number. A file holds what was last
-- written to it, or nothing that can be read; whether the disk writes is an argument. The packages
-- pem and x509 are taken to read what they wrote.
pub mod Validator
pub mod Manager
pub mod Rotator
pub mod Kept
pub mod Accepted
pub mod Rotation
mod Examples
use sssonector.Prelude.{
  Bool, List, Option, String, [], false, if◌then◌else◌, ltb, member, none, not, some, true, ℕ, ◌==◌,
  ◌∷◌,
}
use sssonector.Prelude.{string_eq}

pub data CertificateType : Type 0 where
  unknown_type ca intermediate server client : CertificateType

pub data CertificateStatus : Type 0 where
  unknown_status valid expired revoked : CertificateStatus

pub record KeyUsage : Type 0 where
  pub digital_signature : Bool
  pub key_encipherment : Bool
  pub cert_sign : Bool
  pub crl_sign : Bool

pub data ExtKeyUsage : Type 0 where
  server_auth client_auth : ExtKeyUsage
  other_usage : ℕ → ExtKeyUsage

pub record X509 : Type 0 where
  pub serial_number : String
  pub not_before : ℕ
  pub not_after : ℕ
  pub is_ca : Bool
  pub key_usage : KeyUsage
  pub ext_key_usage : List ExtKeyUsage
  pub crl_distribution_points : ℕ  -- how many
  pub ocsp_server : ℕ  -- how many

pub record Certificate : Type 0 where
  pub x509 : X509
  pub private_key : ℕ
  pub type : CertificateType
  pub status : CertificateStatus
  pub serial_number : String
  pub issuer_serial : String

pub record CertPair : Type 0 where
  pub cert : X509
  pub key : ℕ

unfoldable pub to_cert_pair : Certificate → CertPair
to_cert_pair c = record { cert = c.x509; key = c.private_key }

unfoldable pub to_certificate : CertPair → Certificate
to_certificate p = record {
  x509 = p.cert;
  private_key = p.key;
  type = if p.cert.is_ca then ca else unknown_type;
  status = valid;
  serial_number = p.cert.serial_number;
  issuer_serial = "";
}

-- The two files.
pub record FileStore : Type 0 where
  pub cert_file : Option X509
  pub key_file : Option ℕ

-- What becomes of a file that is written: it fails before the file is opened, or after.
pub data Write : Type 0 where
  whole untouched broken : Write

abbrev pub file_after {ℓ} : {A : Type ℓ} → Write → A → Option A → Option A
file_after whole new old = some new
file_after untouched new old = old
file_after broken new old = none

abbrev pub is_whole : Write → Bool
is_whole whole = true
is_whole untouched = false
is_whole broken = false

-- Whether the directory can be made, and how the files are written.
pub record Disk : Type 0 where
  pub mkdir_all : Bool
  pub write_cert : Write
  pub write_key : Write

unfoldable pub load_current : FileStore → Option CertPair
load_current s = elim s.cert_file [
  | none ↦ none
  | some cert ↦ elim s.key_file [
    | none ↦ none
    | some key ↦ some (record { cert = cert; key = key })
  ]
]

-- True is that there was no error.
unfoldable pub store : Disk → CertPair → FileStore → Bool × FileStore
store disk pair s =
    let first = record s { cert_file = file_after disk.write_cert pair.cert s.cert_file } in
    let second = record first { key_file = file_after disk.write_key pair.key s.key_file } in
    if not disk.mkdir_all
    then (false, s)
    else if not (is_whole disk.write_cert)
    then (false, first)
    else (is_whole disk.write_key, second)

unfoldable pub load : String → FileStore → Option Certificate
load serial_number s = elim (load_current s) [
  | none ↦ none
  | some pair ↦
      if not (pair.cert.serial_number == serial_number) then none else some (to_certificate pair)
]

abbrev pub update : Disk → Certificate → FileStore → Bool × FileStore
update disk c s = store disk (to_cert_pair c) s

unfoldable pub update_status : Disk → String → CertificateStatus → FileStore → Bool × FileStore
update_status disk serial_number status s = elim (load serial_number s) [
  | none ↦ (false, s)
  | some c ↦ update disk (record c { status = status }) s
]

-- Whether each file could be removed, a file that was not there included.
unfoldable pub delete_files : Bool → Bool → FileStore → Bool × FileStore
delete_files cert_removed key_removed s =
    if not cert_removed
    then (false, s)
    else if not key_removed
    then (false, record s { cert_file = none })
    else (true, record { cert_file = none; key_file = none })

unfoldable pub list : FileStore → Option (List CertPair)
list s = elim (load_current s) [ none ↦ none | some pair ↦ some (pair ∷ []) ]

abbrev pub type_eq : CertificateType → CertificateType → Bool
type_eq unknown_type unknown_type = true
type_eq ca ca = true
type_eq intermediate intermediate = true
type_eq server server = true
type_eq client client = true
type_eq a b = false

abbrev pub is_revoked : CertificateStatus → Bool
is_revoked revoked = true
is_revoked unknown_status = false
is_revoked valid = false
is_revoked expired = false

unfoldable pub list_by_type : CertificateType → FileStore → Option (List Certificate)
list_by_type type s = elim (load_current s) [
  | none ↦ none
  | some pair ↦
      let c = to_certificate pair in if type_eq c.type type then some (c ∷ []) else some []
]

abbrev pub status_eq : CertificateStatus → CertificateStatus → Bool
status_eq unknown_status unknown_status = true
status_eq valid valid = true
status_eq expired expired = true
status_eq revoked revoked = true
status_eq a b = false

unfoldable pub list_by_status : CertificateStatus → FileStore → Option (List Certificate)
list_by_status status s = elim (load_current s) [
  | none ↦ none
  | some pair ↦
      let c = to_certificate pair in if status_eq c.status status then some (c ∷ []) else some []
]

unfoldable pub get_chain : Certificate → List Certificate
get_chain c = c ∷ []

pub record RevocationList : Type 0 where
  pub this_update : ℕ
  pub next_update : ℕ
  pub revoked_certificates : List String

-- `none` is no list; true is no error.
unfoldable pub validate_crl : ℕ → X509 → Option RevocationList → Bool
validate_crl now cert none = false
validate_crl now cert (some crl) =
    if ltb now crl.this_update
    then false
    else if ltb crl.next_update now
    then false
    else not (member cert.serial_number crl.revoked_certificates)

-- What comes of each server: true where it answers 200 with a body.
unfoldable pub validate_ocsp : List Bool → Bool
validate_ocsp [] = false
validate_ocsp (answered ∷ servers) =
    let rest = validate_ocsp servers in if answered then true else rest
