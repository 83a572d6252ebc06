-- ===== src/Tests/Proxies.antt =====
-- A connection to a DNN address, and the proxy's own cache.
use dnn_daemon.Common.Outcome.{Outcome, done}
use dnn_daemon.Common.{
  ◌≡◌, ◌↔◌, refl, true, false, Option, none, some, List, is_nil, [], ◌∷◌, arith,
}
use dnn_daemon.Common.Bytes.{Bytes, codes, equal, Distinct}
use dnn_daemon.Common.Int.{ℤ}
use dnn_daemon.Common.Table.{lookup}
use dnn_daemon.Resolver.Answer.{Resolution}
use dnn_daemon.DnsConfig.{
  InterfaceConfig, get_original_upstreams, get_current_upstreams, CanAsk, upstreams-CanAsk,
}
use dnn_daemon.Transports.{try_in_order, try_transports, Reached, try_in_order_iff}
use dnn_daemon.TcpProxy.Verify.{
  X509, accepted, verify_cert, proxy_tls, Accepted, verify_cert-accepted_iff,
}
use dnn_daemon.TcpProxy.{Proxy, new_proxy, store, get_resolution}
use dnn_daemon.TcpProxy.Lifetime.{get_resolution-again}
use dnn_daemon.Tests.Nodes.{sample}
use dnn_daemon.Tests.Sample.{sample_runtime, opened_text}

abbrev site : Bytes
site = codes "nabandonzooa"

abbrev found_at : Bytes → Outcome (Option Resolution)
found_at name = done (some sample)

abbrev nothing_at : Bytes → Outcome (Option Resolution)
nothing_at name = done none

abbrev filled : Proxy
filled = (store (new_proxy 60) site (some sample)).0

get_resolution-again_example : get_resolution nothing_at 66 filled site ≡ done (filled, some sample)
get_resolution-again_example =
    get_resolution-again found_at nothing_at 7 66 (new_proxy 60) filled site sample
      (unfold get_resolution lookup in refl) (omega arith)

abbrev declared : X509
declared = record { raw = codes "DER"; dns_names = codes "other" ∷ codes "*.nabandonzooa" ∷ [] }

abbrev decode_der : Bytes → Option Bytes
decode_der pem = some (codes "DER")

abbrev parse_der : Bytes → Option X509
parse_der block = some declared

-- The wildcard takes more than one label.
verify_cert-accepted_iff_example :
    (verify_cert decode_der parse_der (codes "DER" ∷ []) (codes "PEM") (codes "a.b.nabandonzooa")
      ≡ accepted true)
    ↔ Accepted decode_der parse_der (codes "DER" ∷ []) (codes "PEM") (codes "a.b.nabandonzooa")
verify_cert-accepted_iff_example =
    verify_cert-accepted_iff decode_der parse_der (codes "DER" ∷ []) (codes "PEM")
      (codes "a.b.nabandonzooa")

copied_anyway :
    proxy_tls decode_der parse_der (some (codes "bad" ∷ [])) none (codes "nabandonzooa") ≡ some none
copied_anyway = refl

abbrev listed : Resolution
listed = record sample {
  transports = record { relay = codes "relay" ∷ []; tollgate = codes "use" };
  npubs = codes "npub" ∷ [];
}

abbrev dial : Bytes → ℤ → Option Bytes
dial ip port = some ip

abbrev relay : List Bytes → List Bytes → Option Bytes
relay relays npubs = none

abbrev tollgate : List Bytes → Option Bytes
tollgate npubs = some (codes "mesh")

try_in_order_iff_example :
    ((try_in_order relay tollgate dial (some listed) ≡ some (codes "mesh"))
      ↔ Reached relay tollgate dial listed (codes "mesh"))
    × ((try_transports dial (some listed) ≡ some (codes "mesh"))
        ↔ ((is_nil listed.ip ≡ false) × (dial listed.ip listed.port ≡ some (codes "mesh"))))
try_in_order_iff_example = try_in_order_iff relay tollgate dial listed (codes "mesh")

by_tollgate : try_in_order relay tollgate dial (some listed) ≡ some (codes "mesh")
unfolding try_in_order equal
by_tollgate = refl

abbrev saved : Option (List InterfaceConfig)
saved = some (
    record {
      name = codes "Wi-Fi";
      dns = codes "127.0.0.1" ∷ codes " 9.9.9.9" ∷ codes "9.9.9.9" ∷ [];
      was_dhcp = false;
    }
    ∷ [])

upstreams-CanAsk_example :
    CanAsk (get_original_upstreams saved)
    × Distinct (get_original_upstreams saved)
    × CanAsk (get_current_upstreams (some (codes "127.0.0.1\n8.8.8.8\r\n")))
upstreams-CanAsk_example = upstreams-CanAsk saved (some (codes "127.0.0.1\n8.8.8.8\r\n"))

original_found : get_original_upstreams saved ≡ codes "9.9.9.9:53" ∷ []
unfolding get_original_upstreams opened_text
original_found = refl
