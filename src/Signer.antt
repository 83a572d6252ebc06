-- ===== src/Signer.antt =====
-- internal/ca/signer.go: certificates made on the fly, with their two caches. Keys, serial numbers and
-- X.509 are Go's library: whether making a certificate fails, and the end of its year, are parameters.
pub mod Trusted
use dnn_daemon.Common.{
  ℕ, ◌+◌, Bool, true, false, not, ◌&&◌, Option, none, some, List, [], ◌∷◌, ◌++◌, ltb, ◌==◌,
  if◌then◌else◌, is_nil,
}
use dnn_daemon.Common.Bytes.{Bytes, codes}
use dnn_daemon.Common.Table.{Table, lookup, insert, remove}
use dnn_daemon.Runtime.{Runtime}
use dnn_daemon.Text.{trim_suffix}

pub data SignError : Type 0 where
  no_key no_serial not_created not_parsed : SignError

-- A generated certificate, by the fields of its template and by who signed it.
pub record Signed : Type 0 where
  pub common_name : Bytes
  pub organization : Bytes
  pub dns_names : List Bytes
  pub ip_addresses : List Bytes
  pub not_before : ℕ
  pub not_after : ℕ
  -- signed by the daemon's CA, and not by its own key
  pub by_ca : Bool

pub data Made : Type 0 where
  cert : Signed → Made
  failed : SignError → Made

pub record Signer : Type 0 where
  pub cache : Table Signed
  pub untrusted : Table Signed

-- Go's part in one call: the time, the end of a year from then, and whether a step fails.
pub record Moment : Type 0 where
  pub now : ℕ
  pub year_later : ℕ
  pub failure : Option SignError

abbrev pub hour : ℕ
hour = 3600

module _ ⦃r : Runtime⦄ where
  abbrev names_for : Option Bytes → Bytes → List Bytes
  names_for none domain = domain ∷ (codes "*." ++ domain) ∷ []
  names_for (some ip) domain = []

  abbrev addresses_for : Option Bytes → List Bytes
  addresses_for none = []
  addresses_for (some ip) = ip ∷ []

  abbrev pub template : Moment → Bytes → Bool → Signed
  template m domain trusted = record {
    common_name = domain;
    organization = if trusted then codes "DNN" else codes "DNN - UNVERIFIED";
    dns_names = names_for (r.parse_ip domain) domain;
    ip_addresses = addresses_for (r.parse_ip domain);
    not_before = m.now;
    not_after = m.year_later;
    by_ca = trusted;
  }

  unfoldable pub generate_cert : Moment → Bytes → Bool → Made
  generate_cert m domain trusted = elim m.failure [
    | none ↦ cert (template m domain trusted)
    | some e ↦ failed e
  ]

  -- `time.Now().Before(cert.Leaf.NotAfter.Add(-time.Hour))`
  abbrev pub is_fresh : Moment → Signed → Bool
  is_fresh m c = ltb (m.now + hour) c.not_after

  -- What either cache does with what it holds for the domain: the table afterwards, and the result.
  abbrev pub store_made : Table Signed → Bytes → Made → Table Signed × Made
  store_made table domain (cert c) = (insert domain c table, cert c)
  store_made table domain (failed e) = (table, failed e)

  unfoldable pub cached_or_made :
      Moment → Bytes → Bool → Table Signed → Option Signed → Table Signed × Made
  unfolding generate_cert
  cached_or_made m domain trusted table none =
      store_made table domain (generate_cert m domain trusted)
  cached_or_made m domain trusted table (some c) =
      if is_fresh m c
      then (table, cert c)
      else store_made (remove domain table) domain (generate_cert m domain trusted)

  unfoldable pub get_untrusted_certificate : Moment → Signer → Bytes → Signer × Made
  get_untrusted_certificate m s domain =
      let (table, made) = cached_or_made m domain false s.untrusted (lookup domain s.untrusted) in
      (record s { untrusted = table }, made)

  unfoldable pub get_trusted_certificate : Moment → Signer → Bytes → Signer × Made
  get_trusted_certificate m s domain =
      let (table, made) = cached_or_made m domain true s.cache (lookup domain s.cache) in
      (record s { cache = table }, made)

  -- The checker's answer, `true` where there is no checker.
  abbrev pub passes : Option (Bytes → Bool) → Bytes → Bool
  passes none domain = true
  passes (some is_cert_valid_for_domain) domain = is_cert_valid_for_domain domain

  unfoldable pub get_certificate : Option (Bytes → Bool) → Moment → Signer → Bytes → Signer × Made
  get_certificate checker m s domain =
      if not (passes checker domain)
      then get_untrusted_certificate m s domain
      else get_trusted_certificate m s domain

  -- The callback of `GetTLSConfig`, on the server name of a ClientHello.
  unfoldable pub get_certificate_for_hello :
      Option (Bytes → Bool) → Moment → Signer → Bytes → Signer × Made
  get_certificate_for_hello checker m s server_name =
      get_certificate checker m s (trim_suffix server_name (b'.' ∷ []))
