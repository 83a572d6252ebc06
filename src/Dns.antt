-- ===== src/Dns.antt =====
-- internal/dns/server.go: the answers of the local DNS server, and what they write into the cache. The
-- resolver, the TLS handshake and the forwarding to upstream servers are parameters. A TTL is 300
-- throughout, and is left out.
pub mod Target
pub mod Queries
pub mod Routes
use dnn_daemon.Common.Outcome.{Outcome, done, panic, ◌>>=◌}
use dnn_daemon.Common.{
  ℕ, zero, suc, ◌-◌, Bool, true, false, not, ◌&&◌, ◌||◌, Option, none, some, List, [], ◌∷◌, ◌++◌,
  ltb, ◌==◌, if◌then◌else◌, length, take, drop, is_nil, get_or, any,
}
use dnn_daemon.Common.Bytes.{Bytes, codes, equal}
use dnn_daemon.Common.Int.{ℤ, pos, is_literal}
use dnn_daemon.Common.Table.{lookup}
use dnn_daemon.Net.{to4}
use dnn_daemon.Runtime.{Runtime}
use dnn_daemon.Text.{to_lower, trim_suffix, has_suffix, split, last, index}
use dnn_daemon.Detector.{is_dnn_name, get_tld}
use dnn_daemon.Mapper.{Cache, register, register_with_ip, set_cert_verified}
use dnn_daemon.CertVerify.{Certificate, verify_cert, Handshake, dial_failed, connected}
use dnn_daemon.Resolver.Answer.{Resolution, has_transports}
use dnn_daemon.Resolver.Connection.{CertInfo}

pub record Question : Type 0 where
  pub name : Bytes
  pub qtype : ℕ

pub data Answer : Type 0 where
  a aaaa : Bytes → Answer

abbrev pub localhost : Bytes
localhost = 127 ∷ 0 ∷ 0 ∷ 1 ∷ []

abbrev pub to4_of : Option Bytes → Option Bytes
to4_of none = none
to4_of (some ip) = to4 ip

abbrev pub pem_of : Option CertInfo → Bytes
pem_of none = []
pem_of (some cert) = cert.pem

-- Where an A query is sent.
pub data Route : Type 0 where
  transport direct : Bytes → Route
  proxied nowhere : Route

abbrev pub add_answer : Option Answer → List Answer → List Answer
add_answer none answers = answers
add_answer (some x) answers = answers ++ x ∷ []

module _ ⦃r : Runtime⦄ where
  -- The one label before the DNN ID, if there is one that counts.
  abbrev pub with_prefix : Bytes → Bytes → Bytes
  with_prefix domain_prefix tld =
      if not (is_dnn_name domain_prefix) && not (is_nil domain_prefix)
      then domain_prefix ++ (b'.' ∷ tld)
      else tld

  abbrev pub resolve_at : Bytes → Bytes → Option ℕ → Bytes
  resolve_at name tld none = tld
  resolve_at name tld (some i) =
      if ltb 0 i && get_or name (i - 1) 0 == b'.'
      then with_prefix (last (split (take (i - 1) name) b'.')) tld
      else tld

  -- The name that is resolved, from the queried name in lower case and its DNN ID.
  unfoldable pub name_to_resolve : Bytes → Bytes → Bytes
  name_to_resolve name tld = resolve_at name tld (index name tld)

  -- The address to verify: that of the subdomain, if the node knows one.
  abbrev subdomain_or : Bytes → Option Bytes → Bytes
  subdomain_or ip none = ip
  subdomain_or ip (some sub_ip) = sub_ip

  unfoldable pub verify_ip : Bytes → Bytes → Resolution → Bytes
  verify_ip name target res =
      if not (equal name target) && has_suffix name (b'.' ∷ target)
      then subdomain_or res.ip (lookup (trim_suffix name (b'.' ∷ target)) res.subdomain_ips)
      else res.ip

  unfoldable pub https_port : ℤ → ℤ
  https_port port = if is_literal port 0 || is_literal port 80 then pos 443 else port

  abbrev direct_or_nowhere : Option Bytes → Route
  direct_or_nowhere none = nowhere
  direct_or_nowhere (some ip) = direct ip

  abbrev by_address : Resolution → Bool → Route
  by_address res verified =
      if verified then proxied else direct_or_nowhere (to4_of (r.parse_ip res.ip))

  abbrev by_transport : Resolution → Bool → Option Bytes → Route
  by_transport res verified none = by_address res verified
  by_transport res verified (some ip) = transport ip

  unfoldable pub route : Resolution → Bool → Route
  unfolding has_transports
  route res verified =
      if has_transports res && not (is_nil res.interception_ipv6)
      then by_transport res verified (r.parse_ip res.interception_ipv6)
      else by_address res verified

  -- The two calls of the cache that each route makes, one after the other.
  abbrev pub remember : Cache → Bytes → Resolution → Bool → Bytes → Cache
  remember c target res verified cert_error =
      set_cert_verified (register_with_ip c target res.ip res.port (pem_of res.cert)) target
        verified cert_error

  abbrev pub follow : Cache → Bytes → Resolution → Bool → Route → Cache × Option Answer
  follow c target res verified (transport ip) = (remember c target res verified [], some (aaaa ip))
  follow c target res verified proxied = (remember c target res true [], some (a localhost))
  follow c target res verified (direct ip) =
      (remember c target res false (codes "cert verification failed"), some (a ip))
  follow c target res verified nowhere = (c, none)

  -- The queried name in lower case, and the name to resolve for it.
  abbrev pub plain_name : Bytes → Bytes
  plain_name dnn_name = to_lower (trim_suffix dnn_name (b'.' ∷ []))

  abbrev pub target_of : Bytes → Bytes
  target_of dnn_name = name_to_resolve (plain_name dnn_name) (to_lower (get_tld dnn_name))

  unfoldable pub handle_aaaa : Cache → Bytes → Cache × Option Answer
  handle_aaaa c dnn_name = let (c', ip) = register c (get_tld dnn_name) in (c', some (aaaa ip))

  module _ (resolve : Bytes → Outcome (Option Resolution))
      (handshake : Bytes → ℤ → Bytes → Handshake) (parse : Bytes → Option Certificate) where
    abbrev pub verified_by : Bytes → Bytes → Handshake → Bool
    verified_by pem target (dial_failed _) = false
    verified_by pem target (connected none) = false
    verified_by pem target (connected (some server_pem)) =
        (verify_cert parse pem server_pem target).valid

    unfoldable pub verify_server_cert : Bytes → ℤ → Bytes → Bytes → Bool
    verify_server_cert ip port target pem =
        if is_nil pem then false else verified_by pem target (handshake ip (https_port port) target)

    -- Whether the server at the address to verify shows the declared certificate.
    unfoldable pub is_verified : Bytes → Bytes → Resolution → Bool
    is_verified name target res =
        verify_server_cert (verify_ip name target res) res.port target (pem_of res.cert)

    abbrev pub answer_resolved : Cache → Bytes → Bytes → Option Resolution → Cache × Option Answer
    answer_resolved c name target none = (c, none)
    answer_resolved c name target (some res) =
        let verified = is_verified name target res in
        follow c target res verified (route res verified)

    unfoldable pub handle_a : Cache → Bytes → Outcome (Cache × Option Answer)
    handle_a c dnn_name = do
      found ← resolve (target_of dnn_name)
      done (answer_resolved c (plain_name dnn_name) (target_of dnn_name) found)

    unfoldable pub handle_question : Cache → Question → Outcome (Cache × Option Answer)
    handle_question c q =
        let name = trim_suffix q.name (b'.' ∷ []) in
        if q.qtype == 1
        then handle_a c name
        else if q.qtype == 28
        then done (handle_aaaa c name)
        else done (c, none)

    -- The loop of `handleDNN` over the questions.
    unfoldable pub handle_dnn : Cache → List Question → List Answer → Outcome (Cache × List Answer)
    handle_dnn c [] answers = done (c, answers)
    handle_dnn c (q ∷ questions) answers = do
      (c', answer) ← handle_question c q
      handle_dnn c' questions (add_answer answer answers)

    -- `none` is that the query is forwarded upstream.
    unfoldable pub handle_query : Cache → List Question → Outcome (Cache × Option (List Answer))
    handle_query c questions =
        if any (λ (q : Question). is_dnn_name (trim_suffix q.name (b'.' ∷ []))) questions
        then (do (c', answers) ← handle_dnn c questions []; done (c', some answers))
        else done (c, none)
