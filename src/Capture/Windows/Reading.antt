-- ===== src/Capture/Windows/Reading.antt =====
-- How the packet of an answer is read back.
use dnn_daemon.Common.{
  ℕ, zero, suc, ◌+◌, ◌-◌, ◌*◌, ◌%◌, ◌/◌, ◌≤◌, ◌≡◌, ◌∙◌, false, [], ◌∷◌, ◌++◌, length, take, drop,
  get_or, arith, length-append, length-take, take-append-drop,
}
use dnn_daemon.Common.Bytes.{Bytes}
use dnn_daemon.Common.Outcome.{done}
use dnn_daemon.Net.{word}
use dnn_daemon.Stack as Stack
use dnn_daemon.Stack.{Message, Response, udp, udp_packet}
use dnn_daemon.Stack.Flows.{IsFour, four, drop_exact}
use dnn_daemon.Capture.Windows.{build_response_packet}
use dnn_daemon.Capture.Windows.Respond.{header, built}

-- A list that begins with so many bytes.
pub data Starts : ℕ → Bytes → Type 0 where
  whatever : (rest : Bytes) → Starts zero rest
  one_more : {n : ℕ} {rest : Bytes} → (b : ℕ) → Starts n rest → Starts (suc n) (b ∷ rest)

pub starts : (n : ℕ) (xs : Bytes) → n ≤ length xs → Starts n xs
starts zero xs h = whatever xs
starts (suc n) [] h = absurd (omega (arith, h))
starts (suc n) (x ∷ xs) h = one_more x (starts n xs (omega (arith, h)))

read_back :
    (b0 b1 b2 b3 b4 b5 b6 b7 b8 b9 b10 b11 : ℕ) (src dst opts payload : Bytes)
    → IsFour src
    → IsFour dst
    → b0 / 16 ≡ 4
    → b9 ≡ 17
    → b0 % 16 * 4 ≡ 20 + length opts
    → 8 ≤ length payload
    → Stack.process_packet (header b0 b1 b2 b3 b4 b5 b6 b7 b8 b9 b10 b11 src dst (opts ++ payload))
      ≡ udp payload src dst false
unfolding Stack.process_packet
read_back b0 b1 b2 b3 b4 b5 b6 b7 b8 b9 b10 b11 _ _ opts payload (four s0 s1 s2 s3)
      (four d0 d1 d2 d3) v p l n =
    let cut =
      drop_exact (20 + length opts)
        (header b0 b1 b2 b3 b4 b5 b6 b7 b8 b9 b10 b11 (s0 ∷ s1 ∷ s2 ∷ s3 ∷ [])
          (d0 ∷ d1 ∷ d2 ∷ d3 ∷ []) opts)
        payload (omega arith) in
    ground (arith, cut, length-append opts payload)

pub from_view :
    (orig dns_data : Bytes) (ihl : ℕ)
    → Starts 20 orig
    → get_or orig 0 0 / 16 ≡ 4
    → get_or orig 9 0 ≡ 17
    → get_or orig 0 0 % 16 * 4 ≡ ihl
    → 20 ≤ ihl
    → ihl + 8 ≤ length orig
    → (src_port dst_port : ℕ)
    → (response : Bytes) × (build_response_packet orig ihl
          (take 4 (drop 16 orig))
          (take 4 (drop 12 orig))
          src_port
          dst_port
          dns_data
        ≡ done response)
      × (Stack.process_packet response
          ≡ udp
              (word src_port
                ++ (word dst_port ++ (word (8 + length dns_data) ++ (0 ∷ 0 ∷ dns_data))))
              (take 4 (drop 16 orig))
              (take 4 (drop 12 orig))
              false)
from_view _ dns_data ihl
      (one_more b0 (
        one_more b1 (
          one_more b2 (
            one_more b3 (
              one_more b4 (
                one_more b5 (
                  one_more b6 (
                    one_more b7 (
                      one_more b8 (
                        one_more b9 (
                          one_more b10 (
                            one_more b11 (
                              one_more s0 (
                                one_more s1 (
                                  one_more s2 (
                                    one_more s3 (
                                      one_more d0 (
                                        one_more d1 (
                                          one_more d2
                                            (one_more d3 (whatever rest)))))))))))))))))))))
      v p l k n src_port dst_port =
    let opts = take (ihl - 20) rest in
    let from = four s0 s1 s2 s3 in
    let to = four d0 d1 d2 d3 in
    let size : 20 + length opts ≡ ihl = omega (arith, length-take (ihl - 20) rest) in
    (
      _,
      rw (take-append-drop (ihl - 20) rest) at (
          built b0 b1 b2 b3 b4 b5 b6 b7 b8 b9 b10 b11 ihl src_port dst_port (s0 ∷ s1 ∷ s2 ∷ s3 ∷ [])
            (d0 ∷ d1 ∷ d2 ∷ d3 ∷ []) (d0 ∷ d1 ∷ d2 ∷ d3 ∷ []) (s0 ∷ s1 ∷ s2 ∷ s3 ∷ []) opts
            (drop (ihl - 20) rest) dns_data from to to from size),
      read_back b0 b1 _ _ b4 b5 b6 b7 b8 b9 0 0 (d0 ∷ d1 ∷ d2 ∷ d3 ∷ []) (s0 ∷ s1 ∷ s2 ∷ s3 ∷ [])
          opts _ to from v p (l ∙ omega (arith, size)) (omega arith),
    )
