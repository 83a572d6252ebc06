-- ===== src/Tests/Queries.antt =====
-- The answer to an A query, and what is then in the cache.
use dnn_daemon.Common.Outcome.{Outcome, done}
use dnn_daemon.Common.{◌≡◌, refl, true, Option, none, some, List, [], ◌∷◌}
use dnn_daemon.Common.Bytes.{Bytes, codes}
use dnn_daemon.Common.Int.{ℤ, pos}
use dnn_daemon.Mapper.{Cache, new_cache}
use dnn_daemon.CertVerify.{
  Certificate, Handshake, connected, verify_cert, compare_certs, normalize_pem,
  extract_dnn_id_from_cert,
}
use dnn_daemon.Resolver.Answer.{Resolution, has_transports}
use dnn_daemon.Dns.{
  Question, Answer, handle_query, target_of, a, localhost, remember, handle_a, route, is_verified,
  verify_server_cert, verify_ip, name_to_resolve, https_port,
}
use dnn_daemon.Dns.Target.{IsTarget, name_to_resolve-IsTarget}
use dnn_daemon.Dns.Queries.{Handled, handle_query-Handled}
use dnn_daemon.Dns.Routes.{Settled, handle_a-Settled}
use dnn_daemon.Tests.Nodes.{sample}
use dnn_daemon.Tests.Sample.{sample_runtime, opened_names}

abbrev pub site : Bytes
site = codes "nabandonzooa"

abbrev pub secured : Resolution
secured = record sample {
  cert = some (record { pem = codes "CERT"; signature = []; expires = pos 0 });
}

abbrev pub found_at : Bytes → Outcome (Option Resolution)
found_at name = done (some secured)

abbrev pub shake : Bytes → ℤ → Bytes → Handshake
shake ip port name = connected (some (codes "CERT"))

abbrev pub parse_none : Bytes → Option Certificate
parse_none pem = none

subdomain_kept : target_of (codes "a.Www.NabandonZooA") ≡ codes "www.nabandonzooa"
subdomain_kept = unfold name_to_resolve opened_names in refl

-- The DNN ID is searched as text, and found inside the label before it.
subdomain_lost : target_of (codes "xnabandonzooa.nabandonzooa") ≡ codes "nabandonzooa"
subdomain_lost = unfold name_to_resolve opened_names in refl

handle_a-Settled_example :
    Settled found_at shake parse_none
      (codes "Www.NabandonZooA")
      (remember new_cache (codes "www.nabandonzooa") secured true [])
      (a localhost)
handle_a-Settled_example =
    handle_a-Settled found_at shake parse_none new_cache
      (remember new_cache (codes "www.nabandonzooa") secured true []) (codes "Www.NabandonZooA")
      (a localhost)
      (unfold handle_a route is_verified verify_server_cert verify_ip verify_cert compare_certs
          normalize_pem extract_dnn_id_from_cert name_to_resolve https_port has_transports
          opened_names in
        refl)

name_to_resolve-IsTarget_example :
    IsTarget (codes "www.nabandonzooa") site (name_to_resolve (codes "www.nabandonzooa") site)
name_to_resolve-IsTarget_example = name_to_resolve-IsTarget (codes "www.nabandonzooa") site

abbrev questions : List Question
questions =
    record { name = codes "www.nabandonzooa."; qtype = 1 }
    ∷ record { name = codes "example.org."; qtype = 28 }
    ∷ []

handle_query-Handled_example :
    (res : Cache × Option (List Answer)) × (handle_query found_at shake parse_none new_cache
        questions
      ≡ done res)
    × Handled found_at shake parse_none new_cache questions res
handle_query-Handled_example =
    handle_query-Handled found_at shake parse_none (λ name. (some secured, refl)) new_cache
      questions
