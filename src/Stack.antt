-- ===== src/Stack.antt =====
-- internal/stack/stack.go: what the stack does with a packet that it reads from the TUN device. The
-- packing and unpacking of DNS messages, the exchange with the upstream server and the resolver are
-- parameters. Start, Stop and the socket calls are not modelled; nor is `processTCP`, which only reads,
-- and of `processDNNTransport`, which only logs, the lookup.
pub mod Flows
pub mod Replies
use dnn_daemon.Common.{
  ℕ, ◌+◌, ◌*◌, ◌/◌, ◌%◌, Bool, true, false, not, ◌&&◌, ◌||◌, Option, none, some, List, [], ◌∷◌,
  ◌++◌, ltb, ◌==◌, if◌then◌else◌, length, take, drop, get_or, is_nil,
}
use dnn_daemon.Common.Bytes.{Bytes, codes}
use dnn_daemon.Common.Outcome.{Outcome, done, panic, ◌>>=◌}
use dnn_daemon.Net.{to4, word_at, word}
use dnn_daemon.Runtime.{Runtime}
use dnn_daemon.Text.{trim_suffix}
use dnn_daemon.Detector.{is_dnn_name}
use dnn_daemon.Mapper.{Cache, register_with_ip, lookup_by_ip}
use dnn_daemon.Resolver.Answer.{Resolution, has_transports}
use dnn_daemon.Dns.{Question, Answer, a, aaaa, localhost, pem_of}
use dnn_daemon.Packet.{build_ipv4_packet, build_ipv6_packet}

-- A DNS message: its questions, and what else it holds.
pub record Message : Type 0 where
  pub questions : List Question
  pub rest : Bytes

pub data Response : Type 0 where
  -- `SetRcode(msg, RcodeNameError)`
  name_error : Message → Response
  -- `SetReply(msg)`, with answers
  reply : Message → List Answer → Response
  -- the upstream server's response
  relayed : Message → Response

-- Where a packet goes: nowhere, or to a handler.
pub data Flow : Type 0 where
  ignored : Flow
  udp tcp : (payload src dst : Bytes) (is_ipv6 : Bool) → Flow
  transport : (packet : Bytes) → Flow

unfoldable pub process_ipv4 : Bytes → Flow
process_ipv4 packet =
    let ihl = get_or packet 0 0 % 16 * 4 in
    let src = take 4 (drop 12 packet) in
    let dst = take 4 (drop 16 packet) in
    if ltb (length packet) 20
    then ignored
    else if ltb (length packet) ihl
    then ignored
    else if get_or packet 9 0 == 17
    then (if ltb (length packet) (ihl + 8) then ignored else udp (drop ihl packet) src dst false)
    else if get_or packet 9 0 == 6
    then (if ltb (length packet) (ihl + 20) then ignored else tcp (drop ihl packet) src dst false)
    else ignored

unfoldable pub process_ipv6 : Bytes → Flow
process_ipv6 packet =
    let src = take 16 (drop 8 packet) in
    let dst = take 16 (drop 24 packet) in
    if ltb (length packet) 40
    then ignored
    else if get_or packet 24 0 == 0xfd
    then transport packet
    else if get_or packet 6 0 == 17
    then (if ltb (length packet) 48 then ignored else udp (drop 40 packet) src dst true)
    else if get_or packet 6 0 == 6
    then (if ltb (length packet) 60 then ignored else tcp (drop 40 packet) src dst true)
    else ignored

-- `readLoop` drops what is shorter than 20 bytes, and `processPacket` looks at the version.
unfoldable pub process_packet : Bytes → Flow
unfolding process_ipv4 process_ipv6
process_packet packet =
    if ltb (length packet) 20
    then ignored
    else if get_or packet 0 0 / 16 == 4
    then process_ipv4 packet
    else if get_or packet 0 0 / 16 == 6
    then process_ipv6 packet
    else ignored

abbrev pub udp_packet : ℕ → Bytes → Bytes
udp_packet dst_port dns_data =
    word 53 ++ (word dst_port ++ (word (8 + length dns_data) ++ (0 ∷ 0 ∷ dns_data)))

abbrev pub ip_packet : Bool → Bytes → Bytes → Bytes → Outcome Bytes
ip_packet true src_ip dst_ip payload = done (build_ipv6_packet src_ip dst_ip 17 payload)
ip_packet false src_ip dst_ip payload = build_ipv4_packet src_ip dst_ip 17 payload

-- The first address that is not loopback, of the TUN device or link-local, of those the interfaces
-- have; `none` is an address that is no `IPNet`.
abbrev pub is_local : Bytes → Bool
is_local ip =
    get_or ip 0 0 == 127
    || (get_or ip 0 0 == 10 && get_or ip 1 0 == 0 && get_or ip 2 0 == 85)
    || (get_or ip 0 0 == 169 && get_or ip 1 0 == 254)

abbrev to4_of_net : Option Bytes → Option Bytes
to4_of_net none = none
to4_of_net (some ip) = to4 ip

abbrev pick_ip : Option Bytes → Option Bytes → Option Bytes
pick_ip none rest = rest
pick_ip (some ip) rest = if is_local ip then rest else some ip

unfoldable pub detect_non_tun_ip : List (Option Bytes) → Option Bytes
detect_non_tun_ip [] = none
detect_non_tun_ip (addr ∷ addrs) = pick_ip (to4_of_net addr) (detect_non_tun_ip addrs)

module _ ⦃r : Runtime⦄ where
  abbrev aaaa_of : Option Bytes → List Answer
  aaaa_of none = []
  aaaa_of (some ip) = aaaa ip ∷ []

  abbrev pub answers_for : ℕ → Resolution → List Answer
  answers_for qtype res =
      if qtype == 1
      then a localhost ∷ []
      else if qtype == 28 && has_transports res && not (is_nil res.interception_ipv6)
      then aaaa_of (r.parse_ip res.interception_ipv6)
      else []

  abbrev pub answer_found : Cache → Message → Bytes → ℕ → Option Resolution → Cache × Response
  answer_found c msg dnn_name qtype none = (c, name_error msg)
  answer_found c msg dnn_name qtype (some res) = (
    register_with_ip c dnn_name res.ip res.port (pem_of res.cert),
    reply msg (answers_for qtype res),
  )

  module _ (resolve : Bytes → Outcome (Option Resolution)) (pack : Response → Option Bytes)
      (unpack : Bytes → Option Message) (exchange : Message → Option Message) where
    abbrev pub send_packed : Bytes → ℕ → Bytes → Bool → Option Bytes → Outcome (Option Bytes)
    send_packed dst_ip dst_port src_ip is_ipv6 none = done none
    send_packed dst_ip dst_port src_ip is_ipv6 (some dns_data) = do
      packet ← ip_packet is_ipv6 src_ip dst_ip (udp_packet dst_port dns_data)
      done (some packet)

    -- The packet that is written to the device, if the response can be packed.
    unfoldable pub send_dns_response : Response → Bytes → ℕ → Bytes → Bool → Outcome (Option Bytes)
    send_dns_response resp dst_ip dst_port src_ip is_ipv6 =
        send_packed dst_ip dst_port src_ip is_ipv6 (pack resp)

    unfoldable pub handle_dnn_query : Cache → Message → Bytes → ℕ → Outcome (Cache × Response)
    handle_dnn_query c msg dnn_name qtype = do
      found ← resolve dnn_name
      done (answer_found c msg dnn_name qtype found)

    -- `none` is that nothing is sent back.
    abbrev forwarded : Cache → Option Message → Cache × Option Response
    forwarded c none = (c, none)
    forwarded c (some resp) = (c, some (relayed resp))

    abbrev pub some_response : Cache × Response → Cache × Option Response
    some_response (c, resp) = (c, some resp)

    abbrev pub first_question : Cache → Message → List Question → Outcome (Cache × Option Response)
    first_question c msg [] = done (c, none)
    first_question c msg (q ∷ _) =
        let name = trim_suffix q.name (b'.' ∷ []) in
        if is_dnn_name name
        then (do handled ← handle_dnn_query c msg name q.qtype; done (some_response handled))
        else done (forwarded c (exchange msg))

    abbrev pub queried : Cache → Option Message → Outcome (Cache × Option Response)
    queried c none = done (c, none)
    queried c (some msg) = first_question c msg msg.questions

    unfoldable pub process_dns_query : Cache → Bytes → Outcome (Cache × Option Response)
    process_dns_query c dns_data = queried c (unpack dns_data)

    abbrev pub respond :
        Bytes → ℕ → Bytes → Bool → Cache × Option Response → Outcome (Cache × Option Bytes)
    respond src_ip src_port dst_ip is_ipv6 (c, none) = done (c, none)
    respond src_ip src_port dst_ip is_ipv6 (c, some resp) = do
      packet ← send_dns_response resp src_ip src_port dst_ip is_ipv6
      done (c, packet)

    unfoldable pub process_udp :
        Cache → Bytes → Bytes → Bytes → Bool → Outcome (Cache × Option Bytes)
    process_udp c payload src_ip dst_ip is_ipv6 =
        if ltb (length payload) 8
        then done (c, none)
        else if not (word_at payload 2 == 53)
        then done (c, none)
        else (do
          answered ← process_dns_query c (drop 8 payload)
          respond src_ip (word_at payload 0) dst_ip is_ipv6 answered)

    -- `processDNNTransport` looks the name up, and only logs it.
    abbrev pub transport_name : Cache → Bytes → Option Bytes
    transport_name c packet = lookup_by_ip c (take 16 (drop 24 packet))

    abbrev pub dispatch : Cache → Flow → Outcome (Cache × Option Bytes)
    dispatch c ignored = done (c, none)
    dispatch c (udp payload src_ip dst_ip is_ipv6) = process_udp c payload src_ip dst_ip is_ipv6
    dispatch c (tcp payload src_ip dst_ip is_ipv6) = done (c, none)
    dispatch c (transport packet) = done (c, none)

    -- One round of `readLoop`: the cache afterwards, and the packet written.
    unfoldable pub receive : Cache → Bytes → Outcome (Cache × Option Bytes)
    receive c packet = dispatch c (process_packet packet)
