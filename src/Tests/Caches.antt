-- ===== src/Tests/Caches.antt =====
-- The cache of the mapper at concrete names.
use dnn_daemon.Common.{◌≡◌, refl, ◌↔◌, true, false, none, some, [], ◌∷◌, if◌then◌else◌}
use dnn_daemon.Common.Bytes.{Bytes, codes, equal}
use dnn_daemon.Common.Int.{pos}
use dnn_daemon.Mapper.{
  Cache, new_cache, normalize, is_dnn_address, register, lookup_by_ip, lookup_by_name,
  register_with_ip, get_resolution, has_declared_cert, set_cert_verified, is_cert_valid_for_domain,
  trusts,
}
use dnn_daemon.Mapper.Ops.{add_name, add_resolution, add_verdict, run}
use dnn_daemon.Mapper.Index.{lookup-register}
use dnn_daemon.Mapper.Trust.{untrusted_stays, Vouches, is_cert_valid_for_domain_iff}
use dnn_daemon.Tests.Sample.{sample_runtime, opened_text}

abbrev site : Bytes
site = codes "nabandonzooa"

abbrev server : Bytes
server = codes "192.0.2.7"

abbrev pem : Bytes
pem = codes "CERT"

abbrev filled : Cache
filled = register_with_ip new_cache site server (pos 443) pem

lookup-register_example :
    (lookup_by_ip (register new_cache site).0 (register new_cache site).1 ≡ some (normalize site))
    × (lookup_by_name (register new_cache site).0 (codes "NABANDONZOOA") ≡ (
        if equal (normalize site) (normalize (codes "NABANDONZOOA"))
        then some (register new_cache site).1
        else lookup_by_name new_cache (codes "NABANDONZOOA")))
    × (is_dnn_address (register new_cache site).1 ≡ true)
lookup-register_example = lookup-register new_cache site (codes "NABANDONZOOA")

untrusted_stays_example :
    has_declared_cert
      (run (set_cert_verified filled site false []) (
        add_name site
        ∷ add_verdict site false []
        ∷ add_resolution (codes "other") server (pos 443) pem none
        ∷ []))
      site
    ≡ false
untrusted_stays_example =
    untrusted_stays site
      (add_name site
        ∷ add_verdict site false []
        ∷ add_resolution (codes "other") server (pos 443) pem none
        ∷ [])
      (set_cert_verified filled site false []) (unfold normalize opened_text in refl)
      (unfold trusts has_declared_cert get_resolution set_cert_verified register_with_ip normalize
          opened_text in
        refl)

is_cert_valid_for_domain_iff_example :
    (is_cert_valid_for_domain filled (codes "Www.nabandonzooa") ≡ true)
    ↔ Vouches filled (normalize (codes "Www.nabandonzooa"))
is_cert_valid_for_domain_iff_example =
    is_cert_valid_for_domain_iff filled (codes "Www.nabandonzooa")
