-- ===== src/Capture.antt =====
-- internal/capture/capture_linux.go: the answers of the local DNS server behind the firewall's redirect.
-- The handshake, the resolver and the exchange with the upstream server are parameters.
pub mod Darwin
pub mod Firewall
pub mod Trust
pub mod Windows
use dnn_daemon.Common.{
  ℕ, ◌+◌, Bool, true, false, not, ◌&&◌, Option, none, some, List, [], ◌∷◌, ◌++◌, ltb, ◌==◌,
  if◌then◌else◌, is_nil,
}
use dnn_daemon.Common.Bytes.{Bytes, codes, equal}
use dnn_daemon.Common.Int.{ℤ}
use dnn_daemon.Common.Outcome.{Outcome, done, panic, ◌>>=◌}
use dnn_daemon.Runtime.{Runtime}
use dnn_daemon.Text.{to_lower, trim_suffix, split}
use dnn_daemon.Detector.{is_dnn_name, get_tld}
use dnn_daemon.Mapper.{Cache, npub_to_ipv6, register, register_with_ip, set_cert_verified}
use dnn_daemon.CertVerify.{Certificate, Handshake, PreflightError, preflight_verify}
use dnn_daemon.Resolver.Answer.{Resolution}
use dnn_daemon.Dns.{Question, a, aaaa, localhost, pem_of}
use dnn_daemon.Stack.{Message, Response, reply, relayed}

-- The loop over the parts of the name; `prev` is `parts[i-1]`.
unfoldable pub locate : ℕ → Bytes → Bytes → Bytes → List Bytes → Bytes
unfolding equal
locate i prev tld name [] = name
locate i prev tld name (part ∷ parts) =
    let rest = locate (i + 1) part tld name parts in
    if equal part tld && ltb 0 i then prev ++ (b'.' ∷ tld) else rest

module _ ⦃r : Runtime⦄ where
  unfoldable pub name_to_resolve : Bytes → Bytes
  unfolding locate
  name_to_resolve name =
      if equal name (get_tld name)
      then get_tld name
      else locate 0 [] (get_tld name) name (split (to_lower name) b'.')

  module _ (resolve : Bytes → Outcome (Option Resolution))
      (handshake : Bytes → ℤ → Bytes → Handshake) (parse : Bytes → Option Certificate)
      (error_text : Option PreflightError → Bytes) (exchange : Message → Option Message) where
    abbrev forward : Option Message → Option Response
    forward none = none
    forward (some resp) = some (relayed resp)

    -- `Register`, `RegisterWithIP`, and the pre-flight check of a declared certificate.
    abbrev pub remember : Cache → Bytes → Resolution → Cache
    remember c name res =
        let stored = register_with_ip (register c name).0 name res.ip res.port (pem_of res.cert) in
        let pf = preflight_verify parse handshake res.ip res.port (pem_of res.cert) name in
        if not (is_nil (pem_of res.cert))
        then set_cert_verified stored name pf.verified (error_text pf.error)
        else stored

    abbrev pub response_for : Message → Bytes → ℕ → Option Response
    response_for msg name qtype =
        if qtype == 1
        then some (reply msg (a localhost ∷ []))
        else if qtype == 28
        then some (reply msg (aaaa (npub_to_ipv6 name) ∷ []))
        else forward (exchange msg)

    abbrev pub answer_found :
        Cache → Message → Bytes → ℕ → Option Resolution → Cache × Option Response
    answer_found c msg name qtype none = (c, forward (exchange msg))
    answer_found c msg name qtype (some res) = (remember c name res, response_for msg name qtype)

    unfoldable pub handle_dnn_query :
        Cache → Message → Bytes → ℕ → Outcome (Cache × Option Response)
    handle_dnn_query c msg name qtype = do
      found ← resolve (name_to_resolve name)
      done (answer_found c msg name qtype found)

    abbrev first_question : Cache → Message → List Question → Outcome (Cache × Option Response)
    first_question c msg [] = done (c, none)
    first_question c msg (q ∷ _) =
        let name = trim_suffix q.name (b'.' ∷ []) in
        if is_dnn_name name
        then handle_dnn_query c msg name q.qtype
        else done (c, forward (exchange msg))

    -- The cache afterwards, and what is written back, if anything.
    unfoldable pub handle_dns : Cache → Message → Outcome (Cache × Option Response)
    handle_dns c msg = first_question c msg msg.questions
