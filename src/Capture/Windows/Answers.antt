-- ===== src/Capture/Windows/Answers.antt =====
-- What a DNS query is answered with.
use dnn_daemon.Common.{
  ℕ, ◌+◌, ◌*◌, ◌%◌, ◌/◌, ◌≤◌, ◌≡◌, refl, ◌∙◌, ap, true, false, not, Option, some, List, [], ◌∷◌,
  length, take, drop, get_or, arith, is_nil, Bool-cases, inl, inr,
}
use dnn_daemon.Common.Bytes.{Bytes, codes, equal_self}
use dnn_daemon.Common.Int.{ℤ}
use dnn_daemon.Common.Outcome.{Outcome, done}
use dnn_daemon.Common.Table.{lookup-insert_self}
use dnn_daemon.Net.{word_at}
use dnn_daemon.Runtime.{Runtime}
use dnn_daemon.Text.{trim_suffix}
use dnn_daemon.Detector.{is_dnn_name}
use dnn_daemon.Mapper.{
  Cache, normalize, fresh_resolution, register, register_with_ip_and_subdomains, has_declared_cert,
  get_resolution,
}
use dnn_daemon.Mapper.Trust.{declares_cert, has_declared_cert-set_cert_verified}
use dnn_daemon.CertVerify.{Certificate, Handshake}
use dnn_daemon.Resolver.Answer.{Resolution}
use dnn_daemon.Dns as Dns
use dnn_daemon.Dns.{Question, pem_of}
use dnn_daemon.Stack as Stack
use dnn_daemon.Stack.{Message, Response, udp, udp_packet}
use dnn_daemon.Capture.{name_to_resolve}
use dnn_daemon.Capture.Windows.{
  build_response_packet, reinject, clear_outbound, is_verified, store, remember, reply_to, packed,
  inject, with_cache, handle_dnn, first_question, is_dns, process_packet,
}
use dnn_daemon.Capture.Windows.Reading.{starts, from_view}

is_dns-fits :
    (packet : Bytes)
    → is_dns packet ≡ true
    → (get_or packet 0 0 / 16 ≡ 4)
      × (get_or packet 9 0 ≡ 17)
      × (get_or packet 0 0 % 16 * 4 + 8 ≤ length packet)
      × (20 ≤ length packet)
      × (word_at packet (get_or packet 0 0 % 16 * 4 + 2) ≡ 53)
unfolding is_dns
is_dns-fits packet h = (ground arith, ground arith, ground arith, ground arith, ground arith)

-- What is read as UDP is not empty.
udp_some :
    (packet payload src dst : Bytes)
    → Stack.process_packet packet ≡ udp payload src dst false
    → is_nil packet ≡ false
unfolding Stack.process_packet
udp_some [] payload src dst h = ground arith
udp_some (b ∷ packet) payload src dst h = refl

clear_outbound-some : (addr : Bytes) → is_nil addr ≡ false → is_nil (clear_outbound addr) ≡ false
unfolding clear_outbound
clear_outbound-some [] h = h
clear_outbound-some (b ∷ addr) h = refl

module _ ⦃r : Runtime⦄ (resolve : Bytes → Outcome (Option Resolution))
    (handshake : Bytes → ℤ → Bytes → Handshake) (parse : Bytes → Option Certificate)
    (pack : Response → Option Bytes) (unpack : Bytes → Option Message) where
  no_cert :
      (name : Bytes) (res : Resolution)
      → is_nil (pem_of res.cert) ≡ true
      → is_verified resolve handshake parse pack unpack name res ≡ false
  unfolding Dns.verify_server_cert
  no_cert name res h = rw h

  declares_cert-store :
      (c : Cache) (name : Bytes) (res : Resolution)
      → declares_cert (get_resolution (store resolve handshake parse pack unpack c name res) name)
        ≡ not (is_nil (pem_of res.cert))
  unfolding register_with_ip_and_subdomains get_resolution
  declares_cert-store c name res = ap declares_cert (
      lookup-insert_self (normalize name)
        (fresh_resolution res.ip res.port (pem_of res.cert) (some res.subdomain_ips))
        (register c name).0.resolutions)

  -- The name that was asked for is trusted exactly when `is_verified` holds.
  remember-trust :
      (c : Cache) (name : Bytes) (res : Resolution)
      → has_declared_cert (remember resolve handshake parse pack unpack c name res) name
        ≡ is_verified resolve handshake parse pack unpack name res
  remember-trust c name res =
      elim (Bool-cases (is_verified resolve handshake parse pack unpack name res)) [
        | inl a ↦ rw a (
            ground (
              arith,
              has_declared_cert-set_cert_verified
                  (store resolve handshake parse pack unpack c name res) name true [] name,
              declares_cert-store c name res,
              equal_self (normalize name),
              no_cert name res,
              a,
            ))
        | inr a ↦ rw a (
            ground (
              arith,
              has_declared_cert-set_cert_verified
                  (store resolve handshake parse pack unpack c name res) name false
                  (codes "cert verification failed") name,
              equal_self (normalize name),
            ))
      ]

  injected :
      (packet addr response resp_data : Bytes) (ihl : ℕ)
      → is_nil addr ≡ false
      → is_nil response ≡ false
      → word_at packet (ihl + 2) ≡ 53
      → build_response_packet packet ihl
          (take 4 (drop 16 packet))
          (take 4 (drop 12 packet))
          53
          (word_at packet ihl)
          resp_data
        ≡ done response
      → inject resolve handshake parse pack unpack packet addr ihl (some resp_data)
        ≡ done (response, clear_outbound addr)
  unfolding reinject
  injected packet addr response resp_data ihl a n port b =
      rw (port, b, n, clear_outbound-some addr a) refl

  asked :
      (c : Cache) (packet addr : Bytes) (msg : Message) (q : Question) (more : List Question)
      (res : Resolution)
      → is_dns packet ≡ true
      → unpack (drop (get_or packet 0 0 % 16 * 4 + 8) packet) ≡ some msg
      → msg.questions ≡ q ∷ more
      → is_dnn_name (trim_suffix q.name (b'.' ∷ [])) ≡ true
      → resolve (name_to_resolve (trim_suffix q.name (b'.' ∷ []))) ≡ done (some res)
      → process_packet resolve handshake parse pack unpack c packet addr
        ≡ with_cache resolve handshake parse pack unpack
            (remember resolve handshake parse pack unpack c (trim_suffix q.name (b'.' ∷ [])) res)
            (inject resolve handshake parse pack unpack packet addr (get_or packet 0 0 % 16 * 4) (
              packed resolve handshake parse pack unpack (
                reply_to resolve handshake parse pack unpack msg
                  (trim_suffix q.name (b'.' ∷ []))
                  q.qtype)))
  unfolding process_packet handle_dnn
  asked c packet addr msg q more res d u m n f =
      rw (d, u)
        (ap
            (first_question resolve handshake parse pack unpack c packet addr
              (get_or packet 0 0 % 16 * 4) msg)
            m
          ∙ rw (n, f))

  -- A DNS query over IPv4, with a header of five words at least, for a name that the resolver finds,
  -- is answered, if its type is answered and the reply can be packed: with one packet to the sender,
  -- from the address it asked, which is read back as that reply; and the cache afterwards trusts the
  -- name exactly when `is_verified` holds: the server at the address that the code chooses to check, that
  -- of a subdomain if it finds one and else that of the resolution, showed the declared certificate.
  pub process_packet-answers :
      (c : Cache) (packet addr : Bytes) (msg : Message) (q : Question) (more : List Question)
      (res : Resolution) (resp_data : Bytes)
      → is_dns packet ≡ true
      → 5 ≤ get_or packet 0 0 % 16
      → is_nil addr ≡ false
      → unpack (drop (get_or packet 0 0 % 16 * 4 + 8) packet) ≡ some msg
      → msg.questions ≡ q ∷ more
      → is_dnn_name (trim_suffix q.name (b'.' ∷ [])) ≡ true
      → resolve (name_to_resolve (trim_suffix q.name (b'.' ∷ []))) ≡ done (some res)
      → packed resolve handshake parse pack unpack (
          reply_to resolve handshake parse pack unpack msg (trim_suffix q.name (b'.' ∷ [])) q.qtype)
        ≡ some resp_data
      → (c' : Cache) × (response : Bytes) × (process_packet resolve handshake parse pack unpack c
            packet addr
          ≡ done (c', response, clear_outbound addr))
        × (Stack.process_packet response
            ≡ udp
                (udp_packet (word_at packet (get_or packet 0 0 % 16 * 4)) resp_data)
                (take 4 (drop 16 packet))
                (take 4 (drop 12 packet))
                false)
        × (has_declared_cert c' (trim_suffix q.name (b'.' ∷ []))
            ≡ is_verified resolve handshake parse pack unpack (trim_suffix q.name (b'.' ∷ [])) res)
  process_packet-answers c packet addr msg q more res resp_data d w a u m n f p =
      let ihl = get_or packet 0 0 % 16 * 4 in
      let name = trim_suffix q.name (b'.' ∷ []) in
      let (version, protocol, fits, long, port) = is_dns-fits packet d in
      let (response, b, back) =
        from_view packet resp_data ihl (starts 20 packet long) version protocol refl
          (omega (arith, w)) fits 53 (word_at packet ihl) in
      (
        remember resolve handshake parse pack unpack c name res,
        response,
        asked c packet addr msg q more res d u m n f
            ∙ rw
                (
                  p,
                  injected packet addr response resp_data ihl a (udp_some response _ _ _ back) port
                      b,
                )
                refl,
        back,
        remember-trust c name res,
      )
