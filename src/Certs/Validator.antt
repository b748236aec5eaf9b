-- ===== src/Certs/Validator.antt =====
-- internal/security/cert/validator.go (Validator): the checks of one certificate.
use sssonector.Prelude.{
  Bool, List, Option, [], false, if◌then◌else◌, ltb, none, not, some, true, ℕ, ◌&&◌, ◌∷◌,
}
use sssonector.Certs.{
  Certificate, CertificateType, ExtKeyUsage, X509, ca, client, client_auth, intermediate,
  is_revoked, other_usage, server, server_auth, unknown_type,
}

abbrev pub is_server_auth : ExtKeyUsage → Bool
is_server_auth server_auth = true
is_server_auth client_auth = false
is_server_auth (other_usage n) = false

abbrev pub is_client_auth : ExtKeyUsage → Bool
is_client_auth server_auth = false
is_client_auth client_auth = true
is_client_auth (other_usage n) = false

-- The loops over the extended usages.
unfoldable pub has_usage : (ExtKeyUsage → Bool) → List ExtKeyUsage → Bool
has_usage is [] = false
has_usage is (usage ∷ usages) = let rest = has_usage is usages in if is usage then true else rest

pub data CertificateError : Type 0 where
  not_yet_valid has_expired is_revoked_error missing_usage missing_auth no_ca no_cert_sign :
      CertificateError

unfoldable pub check_server : X509 → Option CertificateError
check_server x =
    if not x.key_usage.key_encipherment && not x.key_usage.digital_signature
    then some missing_usage
    else if not (has_usage is_server_auth x.ext_key_usage)
    then some missing_auth
    else none

unfoldable pub check_client : X509 → Option CertificateError
check_client x =
    if not x.key_usage.digital_signature
    then some missing_usage
    else if not (has_usage is_client_auth x.ext_key_usage)
    then some missing_auth
    else none

unfoldable pub check_ca : X509 → Option CertificateError
check_ca x =
    if not x.is_ca
    then some no_ca
    else if not x.key_usage.cert_sign
    then some no_cert_sign
    else none

abbrev pub check_type : CertificateType → X509 → Option CertificateError
check_type unknown_type x = none
check_type ca x = check_ca x
check_type intermediate x = check_ca x
check_type server x = check_server x
check_type client x = check_client x

-- A certificate that is not nil; `none` is that it is valid.
unfoldable pub validate_certificate : ℕ → Certificate → Option CertificateError
validate_certificate now c =
    if ltb now c.x509.not_before
    then some not_yet_valid
    else if ltb c.x509.not_after now
    then some has_expired
    else if is_revoked c.status
    then some is_revoked_error
    else check_type c.type c.x509
