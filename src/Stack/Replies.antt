-- ===== src/Stack/Replies.antt =====
-- The reply to a query for a DNN name.
use dnn_daemon.Common.{
  ℕ, ◌+◌, ◌*◌, ◌%◌, ◌≤◌, ◌≡◌, true, false, Option, some, List, [], ◌∷◌, length, take, drop, arith,
  get_or, ltb, length-drop, length-take, ap, ◌∙◌,
}
use dnn_daemon.Common.Bytes.{Bytes}
use dnn_daemon.Common.Outcome.{Outcome, done}
use dnn_daemon.Net.{word_at}
use dnn_daemon.Runtime.{Runtime}
use dnn_daemon.Text.{trim_suffix}
use dnn_daemon.Detector.{is_dnn_name}
use dnn_daemon.Mapper.{Cache}
use dnn_daemon.Resolver.Answer.{Resolution}
use dnn_daemon.Dns.{Question}
use dnn_daemon.Packet.{build_ipv4_packet}
use dnn_daemon.Stack.{
  Message, Response, udp, process_packet, process_ipv4, process_ipv6, udp_packet, answer_found,
  send_dns_response, handle_dnn_query, first_question, some_response, process_dns_query,
  process_udp, respond, receive,
}
use dnn_daemon.Stack.Flows.{read_four, length-IsFour}

ipv6_flag : (packet payload src dst : Bytes) → process_ipv6 packet ≡ udp payload src dst false → ⊥
unfolding process_ipv6
ipv6_flag packet payload src dst h = ground arith

only_ipv4 :
    (packet payload src dst : Bytes)
    → process_packet packet ≡ udp payload src dst false
    → process_ipv4 packet ≡ udp payload src dst false
unfolding process_packet
only_ipv4 packet payload src dst h = ground (arith, ipv6_flag packet payload src dst)

ipv4_parts :
    (packet payload src dst : Bytes)
    → process_ipv4 packet ≡ udp payload src dst false
    → (20 ≤ length packet)
      × (get_or packet 0 0 % 16 * 4 + 8 ≤ length packet)
      × (drop (get_or packet 0 0 % 16 * 4) packet ≡ payload)
      × (take 4 (drop 12 packet) ≡ src)
      × (take 4 (drop 16 packet) ≡ dst)
unfolding process_ipv4
ipv4_parts packet payload src dst h = ground arith

-- What is known of a UDP packet that is read as IPv4.
udp_shape :
    (packet payload src dst : Bytes)
    → process_packet packet ≡ udp payload src dst false
    → (8 ≤ length payload) × (length src ≡ 4) × (length dst ≡ 4)
udp_shape packet payload src dst h =
    let (long, room, p, s, d) =
      ipv4_parts packet payload src dst (only_ipv4 packet payload src dst h) in
    (
      rw (← p) (omega (arith, length-drop (get_or packet 0 0 % 16 * 4) packet)),
      rw (← s) (omega (arith, length-take 4 (drop 12 packet), length-drop 12 packet)),
      rw (← d) (omega (arith, length-take 4 (drop 16 packet), length-drop 16 packet)),
    )

module _ ⦃r : Runtime⦄ (resolve : Bytes → Outcome (Option Resolution))
    (pack : Response → Option Bytes) (unpack : Bytes → Option Message)
    (exchange : Message → Option Message) where
  length-udp_packet : (port : ℕ) (dns_data : Bytes) → 8 ≤ length (udp_packet port dns_data)
  length-udp_packet port dns_data = omega arith

  asked :
      (c : Cache) (dns_query : Bytes) (msg : Message) (q : Question) (more : List Question)
      (found : Option Resolution)
      → unpack dns_query ≡ some msg
      → msg.questions ≡ q ∷ more
      → is_dnn_name (trim_suffix q.name (b'.' ∷ [])) ≡ true
      → resolve (trim_suffix q.name (b'.' ∷ [])) ≡ done found
      → process_dns_query resolve pack unpack exchange c dns_query
        ≡ done (
            some_response resolve pack unpack exchange
              (answer_found c msg (trim_suffix q.name (b'.' ∷ [])) q.qtype found))
  unfolding process_dns_query handle_dnn_query
  asked c dns_query msg q more found u m n f =
      rw u (ap (first_question resolve pack unpack exchange c msg) m ∙ rw (n, f))

  responded :
      (src dst dns_data sent : Bytes) (port : ℕ) (handled : Cache × Response)
      → pack handled.1 ≡ some dns_data
      → build_ipv4_packet dst src 17 (udp_packet port dns_data) ≡ done sent
      → respond resolve pack unpack exchange src port dst false
          (some_response resolve pack unpack exchange handled)
        ≡ done (handled.0, some sent)
  unfolding send_dns_response
  responded src dst dns_data sent port (c, resp) p built = rw (p, built)

  -- A query for a DNN name in a UDP packet over IPv4 is answered, if the resolver returns and the
  -- response can be packed: with one packet, to the sender, and nothing else is written but the
  -- resolution that was found.
  pub receive-answers :
      (c : Cache) (packet payload src dst : Bytes) (msg : Message) (q : Question)
      (more : List Question) (found : Option Resolution) (dns_data : Bytes)
      → process_packet packet ≡ udp payload src dst false
      → word_at payload 2 ≡ 53
      → unpack (drop 8 payload) ≡ some msg
      → msg.questions ≡ q ∷ more
      → is_dnn_name (trim_suffix q.name (b'.' ∷ [])) ≡ true
      → resolve (trim_suffix q.name (b'.' ∷ [])) ≡ done found
      → pack (answer_found c msg (trim_suffix q.name (b'.' ∷ [])) q.qtype found).1 ≡ some dns_data
      → (sent : Bytes) × (receive resolve pack unpack exchange c packet
          ≡ done ((answer_found c msg (trim_suffix q.name (b'.' ∷ [])) q.qtype found).0, some sent))
        × (process_packet sent ≡ udp (udp_packet (word_at payload 0) dns_data) dst src false)
  receive-answers c packet payload src dst msg q more found dns_data flow port u m n f p =
      let (room, s, d) = udp_shape packet payload src dst flow in
      let (sent, built, read) =
        read_four dst src (udp_packet (word_at payload 0) dns_data) (length-IsFour dst d)
          (length-IsFour src s) (length-udp_packet (word_at payload 0) dns_data) in
      let long : ltb (length payload) 8 ≡ false = ground arith in
      (
        sent,
        unfold receive process_udp in
            rw (flow, long, port, asked c (drop 8 payload) msg q more found u m n f)
              (responded src dst dns_data sent (word_at payload 0)
                (answer_found c msg (trim_suffix q.name (b'.' ∷ [])) q.qtype found) p built),
        read,
      )
