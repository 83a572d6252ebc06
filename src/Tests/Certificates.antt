-- ===== src/Tests/Certificates.antt =====
-- Certificates: comparing, covering and signing.
use dnn_daemon.Common.{
  ◌≡◌, ◌≢◌, refl, ◌↔◌, Bool, true, false, Option, none, some, [], ◌∷◌, if◌then◌else◌, is_nil, arith,
}
use dnn_daemon.Common.Bytes.{Bytes, codes, equal}
use dnn_daemon.Text.{to_lower}
use dnn_daemon.CertVerify.{
  no_declared_cert, cert_mismatch, no_server_cert, Certificate, verify_cert, cert_covers_domain,
}
use dnn_daemon.CertVerify.Compare.{significant, verify_cert_iff}
use dnn_daemon.CertVerify.Cover.{CertCovers, cert_covers_domain_iff}
use dnn_daemon.Signer.{
  get_untrusted_certificate, cached_or_made, Signer, Moment, template, get_certificate,
}
use dnn_daemon.Signer.Trusted.{IsSorted, IsServed, get_certificate-IsServed}
use dnn_daemon.Tests.Sample.{sample_runtime, opened_text}

abbrev site : Bytes
site = codes "www.nabandonzooa"

abbrev parse_star : Bytes → Option Certificate
parse_star pem = some (record { dns_names = codes "*.Nabandonzooa" ∷ []; common_name = [] })

abbrev declared : Bytes
declared = codes "CE RT"

abbrev shown : Bytes
shown = codes "CERT\n"

verify_cert_iff_example :
    (((verify_cert parse_star declared shown site).valid ≡ true)
      ↔ ((declared ≢ []) × (shown ≢ []) × (significant declared ≡ significant shown)))
    × ((verify_cert parse_star declared shown site).error ≡ (
        if is_nil declared
        then some no_declared_cert
        else if is_nil shown
        then some no_server_cert
        else if equal (significant declared) (significant shown)
        then none
        else some cert_mismatch))
verify_cert_iff_example = verify_cert_iff parse_star declared shown site

cert_covers_domain_iff_example :
    (cert_covers_domain parse_star shown site ≡ true)
    ↔ ((c : Certificate) × (parse_star shown ≡ some c) × CertCovers c (to_lower site))
cert_covers_domain_iff_example = cert_covers_domain_iff parse_star shown site

abbrev empty_signer : Signer
empty_signer = record { cache = []; untrusted = [] }

abbrev start : Moment
start = record { now = 100; year_later = 31536100; failure = none }

empty-IsSorted : IsSorted empty_signer
unfolding opened_text
empty-IsSorted = record { cache_trusted = λ d c h. cc; untrusted_self_signed = λ d c h. cc }

abbrev refuse_all : Option (Bytes → Bool)
refuse_all = some (λ domain. false)

get_certificate-IsServed_example : IsServed start site false (template start site false)
get_certificate-IsServed_example =
    get_certificate-IsServed refuse_all start empty_signer site (template start site false)
      (omega arith) empty-IsSorted
      (unfold get_certificate get_untrusted_certificate cached_or_made opened_text in refl)
