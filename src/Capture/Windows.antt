-- ===== src/Capture/Windows.antt =====
-- internal/capture/capture_windows.go: what becomes of a packet that WinDivert hands out. A packet is
-- handed back with its address, for WinDivert to compute the checksums and to send it. WinDivert, the
-- packing of DNS messages, the handshake and the resolver are parameters; the loading of the driver is
-- not modelled.
pub mod Answers
pub mod Passes
pub mod Reading
pub mod Respond
use dnn_daemon.Common.{
  ℕ, zero, suc, ◌+◌, ◌*◌, ◌-◌, ◌/◌, ◌%◌, Bool, true, false, not, ◌||◌, Option, none, some, List, [],
  ◌∷◌, ◌++◌, ltb, ◌==◌, if◌then◌else◌, length, take, drop, get_or, is_nil,
}
use dnn_daemon.Common.Bytes.{Bytes, codes}
use dnn_daemon.Common.Int.{ℤ}
use dnn_daemon.Common.Outcome.{Outcome, done, panic, ◌>>=◌}
use dnn_daemon.Net.{to4, word_at, word}
use dnn_daemon.Runtime.{Runtime}
use dnn_daemon.Text.{trim_suffix}
use dnn_daemon.Detector.{is_dnn_name}
use dnn_daemon.Mapper.{
  Cache, npub_to_ipv6, register, register_with_ip_and_subdomains, set_cert_verified,
}
use dnn_daemon.CertVerify.{Certificate, Handshake}
use dnn_daemon.Resolver.Answer.{Resolution}
use dnn_daemon.Dns as Dns
use dnn_daemon.Dns.{Question, a, aaaa, localhost, pem_of}
use dnn_daemon.Stack.{Message, Response, reply}
use dnn_daemon.Capture.{name_to_resolve}

-- `copy(packet[at:at+size], src)`: a slice out of range panics.
unfoldable pub copy_to : ℕ → ℕ → Bytes → Bytes → Outcome Bytes
copy_to at size src packet =
    if ltb (length packet) (at + size)
    then panic
    else done (take at packet ++ (take size src ++ drop (at + length (take size src)) packet))

-- `make([]byte, n)`
abbrev pub zeros : ℕ → Bytes
zeros zero = []
zeros (suc n) = 0 ∷ zeros n

-- What a nil address copies is nothing.
abbrev pub address_bytes : Option Bytes → Bytes
address_bytes none = []
address_bytes (some ip) = ip

-- The addresses, the total length and the checksum, in this order.
unfoldable pub write_header : Bytes → Bytes → ℕ → Bytes → Outcome Bytes
write_header src_ip dst_ip total_len packet = do
  sourced ← copy_to 12 4 (address_bytes (to4 src_ip)) packet
  routed ← copy_to 16 4 (address_bytes (to4 dst_ip)) sourced
  sized ← copy_to 2 2 (word total_len) routed
  copy_to 10 2 (0 ∷ 0 ∷ []) sized

unfoldable pub write_udp : ℕ → ℕ → ℕ → ℕ → Bytes → Bytes → Outcome Bytes
write_udp ihl src_port dst_port udp_len dns_data packet = do
  sourced ← copy_to ihl 2 (word src_port) packet
  routed ← copy_to (ihl + 2) 2 (word dst_port) sourced
  sized ← copy_to (ihl + 4) 2 (word udp_len) routed
  cleared ← copy_to (ihl + 6) 2 (0 ∷ 0 ∷ []) sized
  copy_to (ihl + 8) (length dns_data) dns_data cleared

unfoldable pub build_response_packet : Bytes → ℕ → Bytes → Bytes → ℕ → ℕ → Bytes → Outcome Bytes
build_response_packet orig_packet ihl src_ip dst_ip src_port dst_port dns_data = do
  copied ← copy_to 0 ihl (take ihl orig_packet) (zeros (ihl + (8 + length dns_data)))
  headed ← write_header src_ip dst_ip (ihl + (8 + length dns_data)) copied
  write_udp ihl src_port dst_port (8 + length dns_data) dns_data headed

-- `&packet[0]` panics on an empty packet.
unfoldable pub reinject : Bytes → Bytes → Outcome (Bytes × Bytes)
reinject packet addr = if is_nil packet || is_nil addr then panic else done (packet, addr)

-- `addr[10] &^ 0x02`, where there is such a byte
abbrev without_outbound : ℕ → ℕ
without_outbound flags = flags - flags / 2 % 2 * 2

abbrev clear_bit : Bytes → Bytes
clear_bit [] = []
clear_bit (flags ∷ addr) = without_outbound flags ∷ addr

unfoldable pub clear_outbound : Bytes → Bytes
clear_outbound addr = take 10 addr ++ clear_bit (drop 10 addr)

-- UDP to port 53 over IPv4, whose headers the packet has room for.
unfoldable pub is_dns : Bytes → Bool
is_dns packet =
    let ihl = get_or packet 0 0 % 16 * 4 in
    if ltb (length packet) 20
    then false
    else if not (get_or packet 0 0 / 16 == 4)
    then false
    else if ltb (length packet) (ihl + 8)
    then false
    else if not (get_or packet 9 0 == 17)
    then false
    else word_at packet (ihl + 2) == 53

module _ ⦃r : Runtime⦄ (resolve : Bytes → Outcome (Option Resolution))
    (handshake : Bytes → ℤ → Bytes → Handshake) (parse : Bytes → Option Certificate)
    (pack : Response → Option Bytes) (unpack : Bytes → Option Message) where
  -- The steps are those of `verifyServerCert` in internal/dns/server.go.
  abbrev pub verify_server_cert : Bytes → ℤ → Bytes → Bytes → Bool
  verify_server_cert ip port dnn_name pem =
      Dns.verify_server_cert resolve handshake parse ip port dnn_name pem

  -- The address of the subdomain before the resolved name, if the node knows one.
  abbrev pub verify_ip : Bytes → Resolution → Bytes
  verify_ip name res = Dns.verify_ip name (name_to_resolve name) res

  abbrev pub is_verified : Bytes → Resolution → Bool
  is_verified name res =
      verify_server_cert (verify_ip name res) res.port (name_to_resolve name) (pem_of res.cert)

  abbrev pub store : Cache → Bytes → Resolution → Cache
  store c name res =
      register_with_ip_and_subdomains (register c name).0 name res.ip res.port (pem_of res.cert)
        (some res.subdomain_ips)

  abbrev pub remember : Cache → Bytes → Resolution → Cache
  remember c name res =
      if is_verified name res
      then set_cert_verified (store c name res) name true []
      else set_cert_verified (store c name res) name false (codes "cert verification failed")

  -- The reply, for the types that are answered.
  abbrev pub reply_to : Message → Bytes → ℕ → Option Response
  reply_to msg name qtype =
      if qtype == 1
      then some (reply msg (a localhost ∷ []))
      else if qtype == 28
      then some (reply msg (aaaa (npub_to_ipv6 name) ∷ []))
      else none

  abbrev pub packed : Option Response → Option Bytes
  packed none = none
  packed (some resp) = pack resp

  -- A query: its packet and address, the addresses and ports, and the length of the header.
  abbrev pub inject : Bytes → Bytes → ℕ → Option Bytes → Outcome (Bytes × Bytes)
  inject packet addr ihl none = reinject packet addr
  inject packet addr ihl (some resp_data) = do
    response ←
        build_response_packet packet ihl (take 4 (drop 16 packet)) (take 4 (drop 12 packet))
          (word_at packet (ihl + 2)) (word_at packet ihl) resp_data
    reinject response (clear_outbound addr)

  abbrev pub with_cache : Cache → Outcome (Bytes × Bytes) → Outcome (Cache × Bytes × Bytes)
  with_cache c sent = do s ← sent; done (c, s.0, s.1)

  abbrev pub answer_found :
      Cache
      → Bytes
      → Bytes
      → Message
      → Bytes
      → ℕ
      → ℕ
      → Option Resolution
      → Outcome (Cache × Bytes × Bytes)
  answer_found c packet addr msg name qtype ihl none = with_cache c (reinject packet addr)
  answer_found c packet addr msg name qtype ihl (some res) =
      with_cache (remember c name res) (inject packet addr ihl (packed (reply_to msg name qtype)))

  unfoldable pub handle_dnn :
      Cache → Bytes → Bytes → Message → Bytes → ℕ → ℕ → Outcome (Cache × Bytes × Bytes)
  handle_dnn c packet addr msg name qtype ihl = do
    found ← resolve (name_to_resolve name)
    answer_found c packet addr msg name qtype ihl found

  abbrev pub first_question :
      Cache → Bytes → Bytes → ℕ → Message → List Question → Outcome (Cache × Bytes × Bytes)
  first_question c packet addr ihl msg [] = with_cache c (reinject packet addr)
  first_question c packet addr ihl msg (q ∷ _) =
      let name = trim_suffix q.name (b'.' ∷ []) in
      if is_dnn_name name
      then handle_dnn c packet addr msg name q.qtype ihl
      else with_cache c (reinject packet addr)

  abbrev pub queried : Cache → Bytes → Bytes → ℕ → Option Message → Outcome (Cache × Bytes × Bytes)
  queried c packet addr ihl none = with_cache c (reinject packet addr)
  queried c packet addr ihl (some msg) = first_question c packet addr ihl msg msg.questions

  -- The cache afterwards, and the packet that is handed back with its address.
  unfoldable pub process_packet : Cache → Bytes → Bytes → Outcome (Cache × Bytes × Bytes)
  process_packet c packet addr =
      let ihl = get_or packet 0 0 % 16 * 4 in
      if is_dns packet
      then queried c packet addr ihl (unpack (drop (ihl + 8) packet))
      else with_cache c (reinject packet addr)
