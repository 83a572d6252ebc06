-- ===== src/Tests/Packets.antt =====
-- A query in a packet, and the reply.
use dnn_daemon.Common.{
  ◌≡◌, refl, true, false, Option, none, some, [], ◌∷◌, ◌++◌, arith, take, if◌then◌else◌, ◌==◌,
  get_or,
}
use dnn_daemon.Common.Bytes.{Bytes, codes}
use dnn_daemon.Common.Outcome.{Outcome, done}
use dnn_daemon.Net.{to4, word_at, word}
use dnn_daemon.Text.{trim_suffix}
use dnn_daemon.Mapper.{new_cache}
use dnn_daemon.Resolver.Answer.{Resolution}
use dnn_daemon.Dns.{Question}
use dnn_daemon.Packet.{build_ipv4_packet, build_ipv6_packet, ipv4_checksum}
use dnn_daemon.Packet.Checksum.{build_ipv4_packet-ipv4_checksum}
use dnn_daemon.Stack.{
  Message, Response, udp, transport, process_packet, udp_packet, answer_found, receive,
  detect_non_tun_ip,
}
use dnn_daemon.Stack.Flows.{process_packet-build}
use dnn_daemon.Stack.Replies.{receive-answers}
use dnn_daemon.Tests.Nodes.{sample}
use dnn_daemon.Tests.Sample.{sample_runtime, opened_names}

abbrev pub client : Bytes
client = 10 ∷ 0 ∷ 85 ∷ 2 ∷ []

abbrev pub server : Bytes
server = 8 ∷ 8 ∷ 8 ∷ 8 ∷ []

abbrev client6 : Bytes
client6 = 0xfe ∷ 0x80 ∷ 0 ∷ 0 ∷ 0 ∷ 0 ∷ 0 ∷ 0 ∷ 0 ∷ 0 ∷ 0 ∷ 0 ∷ 0 ∷ 0 ∷ 0 ∷ 1 ∷ []

abbrev dnn_address : Bytes
dnn_address = 0xfd ∷ 1 ∷ 2 ∷ 3 ∷ 4 ∷ 5 ∷ 6 ∷ 7 ∷ 8 ∷ 9 ∷ 10 ∷ 11 ∷ 12 ∷ 13 ∷ 14 ∷ 15 ∷ []

-- From port 4000 to port 53, with four bytes of a query.
abbrev datagram : Bytes
datagram = word 4000 ++ (word 53 ++ (word 12 ++ (0 ∷ 0 ∷ codes "ask?")))

abbrev pub query : Bytes
query = 0x45 ∷ 0 ∷ 0 ∷ 32 ∷ 0 ∷ 0 ∷ 0 ∷ 0 ∷ 64 ∷ 17 ∷ 0 ∷ 0 ∷ (client ++ (server ++ datagram))

abbrev pub asked : Question
asked = record { name = codes "nabandonzooa."; qtype = 1 }

abbrev pub message : Message
message = record { questions = asked ∷ []; rest = [] }

abbrev pub found_at : Bytes → Outcome (Option Resolution)
found_at name = done (some sample)

abbrev pub pack : Response → Option Bytes
pack resp = some (codes "data")

abbrev pub unpack : Bytes → Option Message
unpack dns_data = some message

abbrev exchange : Message → Option Message
exchange msg = none

-- The example of RFC 1071, with its checksum in place.
checksum_found :
    ipv4_checksum (
      0x45 ∷ 0 ∷ 0 ∷ 0x73 ∷ 0 ∷ 0 ∷ 0x40 ∷ 0 ∷ 0x40 ∷ 0x11 ∷ 0 ∷ 0 ∷ 0xc0 ∷ 0xa8 ∷ 0 ∷ 1 ∷ 0xc0
      ∷ 0xa8 ∷ 0 ∷ 0xc7 ∷ [])
    ≡ done 0xb861
unfolding ipv4_checksum
checksum_found = refl

address_found :
    detect_non_tun_ip
      (none ∷ some (127 ∷ 0 ∷ 0 ∷ 1 ∷ []) ∷ some client ∷ some client6 ∷ some server ∷ [])
    ≡ some server
unfolding detect_non_tun_ip to4
address_found = refl

build_ipv4_packet-ipv4_checksum_example :
    (packet : Bytes) × (build_ipv4_packet client server 17 datagram ≡ done packet)
    × (ipv4_checksum (take 20 packet) ≡ done 0)
build_ipv4_packet-ipv4_checksum_example =
    build_ipv4_packet-ipv4_checksum client server 17 datagram (omega arith) (omega arith)
      (omega arith)

process_packet-build_example :
    ((packet : Bytes) × (build_ipv4_packet client server 17 datagram ≡ done packet)
      × (process_packet packet ≡ udp datagram client server false))
    × (process_packet (build_ipv6_packet client6 dnn_address 17 datagram) ≡ (
        if get_or dnn_address 0 0 == 0xfd
        then transport (build_ipv6_packet client6 dnn_address 17 datagram)
        else udp datagram client6 dnn_address true))
process_packet-build_example =
    process_packet-build client server client6 dnn_address datagram refl refl refl refl
      (omega arith)

receive-answers_example :
    (sent : Bytes) × (receive found_at pack unpack exchange new_cache query
      ≡ done (
        (answer_found new_cache message
            (trim_suffix (codes "nabandonzooa.") (b'.' ∷ []))
            1
            (some sample)).0,
        some sent,
      ))
    × (process_packet sent
        ≡ udp (udp_packet (word_at datagram 0) (codes "data")) server client false)
receive-answers_example =
    receive-answers found_at pack unpack exchange new_cache query datagram client server message
      asked [] (some sample) (codes "data") (unfold process_packet in refl) refl refl refl
      (unfold opened_names in refl) refl refl
