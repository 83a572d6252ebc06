-- ===== src/CertVerify.antt =====
-- internal/certverify: comparing a server's certificate with the declared one. Parsing PEM and X.509
-- is Go's library: `parse` stands for `pem.Decode` followed by `x509.ParseCertificate`.
pub mod Compare
pub mod Cover
use dnn_daemon.Common.{
  ℕ, ◌-◌, Bool, true, false, not, ◌&&◌, ◌||◌, Option, none, some, List, [], ◌∷◌, ◌++◌,
  if◌then◌else◌, length, take, drop, any, is_nil,
}
use dnn_daemon.Common.Bytes.{Bytes, codes, equal}
use dnn_daemon.Common.Int.{ℤ}
use dnn_daemon.Runtime.{Runtime}
use dnn_daemon.Text.{to_lower, has_prefix, has_suffix, contains, remove_all}

pub data Failure : Type 0 where
  no_declared_cert cert_mismatch no_server_cert : Failure

-- `VerificationResult`; `valid` is that there is no error.
pub record Verification : Type 0 where
  pub valid : Bool
  pub error : Option Failure
  pub cert_dnn_id : Bytes
  pub visited_dnn : Bytes

-- The fields of `x509.Certificate` that the package reads.
pub record Certificate : Type 0 where
  pub dns_names : List Bytes
  pub common_name : Bytes

unfoldable pub normalize_pem : Bytes → Bytes
unfolding remove_all
normalize_pem pem = remove_all b' ' (remove_all b'\n' (remove_all b'\r' pem))

unfoldable pub compare_certs : Bytes → Bytes → Bool
compare_certs pem1 pem2 = equal (normalize_pem pem1) (normalize_pem pem2)

-- What a wildcard stands for: one label, not empty.
unfoldable pub single_label : Bytes → Bool
single_label prefix = not (contains prefix b'.') && not (is_nil prefix)

-- Whether a name of the certificate, in lower case, covers the visited domain.
unfoldable pub name_covers : Bytes → Bytes → Bool
name_covers visited san =
    if equal visited san
    then true
    else if has_prefix san (codes "*.") && has_suffix visited (drop 1 san)
    then single_label (take (length visited - length (drop 1 san)) visited)
    else false

-- `dnnIDMatches`, on names in lower case.
unfoldable pub id_matches : Bytes → Bytes → Bool
id_matches visited cert_id =
    if equal visited cert_id
    then true
    else if has_suffix visited (b'.' ∷ cert_id)
    then true
    else has_prefix cert_id (codes "*.") && has_suffix visited (drop 1 cert_id)

module _ ⦃r : Runtime⦄ where
  -- The first name that is not a wildcard.
  unfoldable pub first_plain_name : List Bytes → Option Bytes
  first_plain_name [] = none
  first_plain_name (name ∷ names) =
      let rest = first_plain_name names in
      if not (has_prefix name (codes "*.")) then some (to_lower name) else rest

  unfoldable pub plain_common_name : Bytes → Bytes
  plain_common_name cn =
      if not (is_nil cn) && not (has_prefix cn (codes "*.")) then to_lower cn else []

  unfoldable pub cert_covers : Certificate → Bytes → Bool
  cert_covers cert visited =
      any (λ san. name_covers visited (to_lower san)) cert.dns_names
      || (not (is_nil (to_lower cert.common_name))
          && name_covers visited (to_lower cert.common_name))

  abbrev pub parsed_covers : Option Certificate → Bytes → Bool
  parsed_covers none visited = false
  parsed_covers (some cert) visited = cert_covers cert visited

  unfoldable pub dnn_id_matches : Bytes → Bytes → Bool
  unfolding id_matches
  dnn_id_matches visited_name cert_dnn_id =
      id_matches (to_lower visited_name) (to_lower cert_dnn_id)

module _ ⦃r : Runtime⦄ (parse : Bytes → Option Certificate) where
  -- `none` is the error of a certificate that cannot be parsed.
  unfoldable pub extract_dnn_id_from_cert : Bytes → Option Bytes
  unfolding first_plain_name plain_common_name
  extract_dnn_id_from_cert pem = elim (parse pem) [
    | none ↦ none
    | some cert ↦ some (elim (first_plain_name cert.dns_names) [
      | some name ↦ name
      | none ↦ plain_common_name cert.common_name
    ])
  ]

  abbrev id_or_empty : Option Bytes → Bytes
  id_or_empty none = []
  id_or_empty (some id) = id

  abbrev failed : Bytes → Failure → Verification
  failed dnn_name f = record {
    valid = false;
    error = some f;
    cert_dnn_id = [];
    visited_dnn = to_lower dnn_name;
  }

  unfoldable pub verify_cert : Bytes → Bytes → Bytes → Verification
  verify_cert declared_pem server_pem dnn_name =
      if is_nil declared_pem
      then failed dnn_name no_declared_cert
      else if is_nil server_pem
      then failed dnn_name no_server_cert
      else if not (compare_certs declared_pem server_pem)
      then failed dnn_name cert_mismatch
      else record {
        valid = true;
        error = none;
        cert_dnn_id = id_or_empty (extract_dnn_id_from_cert server_pem);
        visited_dnn = to_lower dnn_name;
      }

  unfoldable pub cert_covers_domain : Bytes → Bytes → Bool
  cert_covers_domain pem visited_domain = parsed_covers (parse pem) (to_lower visited_domain)

-- What the TLS handshake of `PreflightVerify` gives: no connection, or the leaf certificate as PEM,
-- if the server sent one.
pub data Handshake : Type 0 where
  dial_failed : Bytes → Handshake
  connected : Option Bytes → Handshake

pub data PreflightError : Type 0 where
  no_declared : PreflightError
  dial : Bytes → PreflightError
  no_certificates : PreflightError
  verification : Failure → PreflightError

pub record Preflight : Type 0 where
  pub verified : Bool
  pub error : Option PreflightError
  pub server_pem : Bytes

module _ ⦃r : Runtime⦄ (parse : Bytes → Option Certificate) where
  abbrev compared : Bytes → Verification → Preflight
  compared pem v = record {
    verified = v.valid;
    error = elim v.error [ none ↦ none | some f ↦ some (verification f) ];
    server_pem = pem;
  }

  abbrev after_handshake : Bytes → Bytes → Handshake → Preflight
  after_handshake declared_pem dnn_name (dial_failed why) = record {
    verified = false;
    error = some (dial why);
    server_pem = [];
  }
  after_handshake declared_pem dnn_name (connected none) = record {
    verified = false;
    error = some no_certificates;
    server_pem = [];
  }
  after_handshake declared_pem dnn_name (connected (some pem)) =
      compared pem (verify_cert parse declared_pem pem dnn_name)

  -- `handshake` is the TLS connection to the address and port, under the server name.
  unfoldable pub preflight_verify :
      (Bytes → ℤ → Bytes → Handshake) → Bytes → ℤ → Bytes → Bytes → Preflight
  preflight_verify handshake ip port declared_pem dnn_name =
      if is_nil declared_pem
      then record { verified = false; error = some no_declared; server_pem = [] }
      else after_handshake declared_pem dnn_name (handshake ip port dnn_name)
