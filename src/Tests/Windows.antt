-- ===== src/Tests/Windows.antt =====
-- Packets that WinDivert hands out.
use dnn_daemon.Common.{◌≡◌, refl, false, Option, none, [], ◌∷◌, arith}
use dnn_daemon.Common.Bytes.{Bytes, codes}
use dnn_daemon.Common.Outcome.{Outcome, done, panic}
use dnn_daemon.Net.{word_at, to4}
use dnn_daemon.Text.{trim_suffix}
use dnn_daemon.Mapper.{Cache, new_cache, has_declared_cert}
use dnn_daemon.Stack as Stack
use dnn_daemon.Stack.{udp, udp_packet}
use dnn_daemon.Capture.Windows.{
  process_packet, is_dns, is_verified, clear_outbound, build_response_packet, copy_to, write_header,
  write_udp,
}
use dnn_daemon.Capture.Windows.Answers.{process_packet-answers}
use dnn_daemon.Capture.Windows.Passes.{process_packet-passes}
use dnn_daemon.Resolver.Answer.{Resolution}
use dnn_daemon.Tests.Queries.{shake, parse_none}
use dnn_daemon.Tests.Nodes.{sample}
use dnn_daemon.Tests.Packets.{query, message, asked, found_at, pack, unpack, client, server}
use dnn_daemon.Tests.Sample.{sample_runtime, opened_names}

-- The address of an outbound packet.
abbrev addr : Bytes
addr = 0 ∷ 0 ∷ 0 ∷ 0 ∷ 0 ∷ 0 ∷ 0 ∷ 0 ∷ 0 ∷ 0 ∷ 3 ∷ 7 ∷ []

bit_cleared : clear_outbound addr ≡ 0 ∷ 0 ∷ 0 ∷ 0 ∷ 0 ∷ 0 ∷ 0 ∷ 0 ∷ 0 ∷ 0 ∷ 1 ∷ 7 ∷ []
unfolding clear_outbound
bit_cleared = refl

-- A header of no words leaves no room for the addresses, when the response is short.
short_header : build_response_packet query 0 server client 53 4000 (codes "tiny") ≡ panic
unfolding build_response_packet copy_to write_header write_udp to4
short_header = refl

process_packet-answers_example :
    (c' : Cache) × (response : Bytes) × (process_packet found_at shake parse_none pack unpack
        new_cache query addr
      ≡ done (c', response, clear_outbound addr))
    × (Stack.process_packet response
        ≡ udp (udp_packet (word_at query 20) (codes "data")) server client false)
    × (has_declared_cert c' (trim_suffix (codes "nabandonzooa.") (b'.' ∷ []))
        ≡ is_verified found_at shake parse_none pack unpack
            (trim_suffix (codes "nabandonzooa.") (b'.' ∷ []))
            sample)
process_packet-answers_example =
    process_packet-answers found_at shake parse_none pack unpack new_cache query addr message asked
      [] sample (codes "data") (unfold is_dns in refl) (omega arith) refl refl refl
      (unfold opened_names in refl) refl refl

abbrev missing : Bytes → Outcome (Option Resolution)
missing name = done none

process_packet-passes_example :
    process_packet missing shake parse_none pack unpack new_cache query addr
    ≡ done (new_cache, query, addr)
process_packet-passes_example =
    process_packet-passes missing shake parse_none pack unpack new_cache query addr refl refl
      (λ name e d. refl)
