-- ===== src/Capture/Windows/Respond.antt =====
-- The packet that is built as an answer, byte by byte.
use dnn_daemon.Common.{
  ℕ, zero, suc, ◌+◌, ◌%◌, ◌/◌, ◌≤◌, ◌≡◌, refl, ◌∙◌, ap, [], ◌∷◌, ◌++◌, length, take, drop, arith,
  take-append_self, length-append, append_assoc, append-nil,
}
use dnn_daemon.Common.Bytes.{Bytes}
use dnn_daemon.Common.Outcome.{done, then-done}
use dnn_daemon.Net.{to4, word}
use dnn_daemon.Stack.Flows.{take_exact, drop_exact, IsFour, four}
use dnn_daemon.Capture.Windows.{copy_to, zeros, write_header, write_udp, build_response_packet}

length-zeros : (n : ℕ) → length (zeros n) ≡ n
length-zeros zero = refl
length-zeros (suc n) = omega (arith, length-zeros n)

take_whole : (src : Bytes) → take (length src) src ≡ src
take_whole src = rw append-nil at (take-append_self src [])

-- A write of a part of its length.
copy_to-part :
    (at size : ℕ) (xs src old rest : Bytes)
    → length xs ≡ at
    → length src ≡ size
    → length old ≡ size
    → copy_to at size src (xs ++ (old ++ rest)) ≡ done (xs ++ (src ++ rest))
unfolding copy_to
copy_to-part at size xs src old rest a b c =
    let whole : take size src ≡ src = rw b at (take_whole src) in
    let before : take at (xs ++ (old ++ rest)) ≡ xs = take_exact at xs (old ++ rest) a in
    let behind : drop (at + length src) (xs ++ (old ++ rest)) ≡ rest =
      rw append_assoc at
        (drop_exact (at + length src) (xs ++ old) rest (omega (arith, length-append xs old))) in
    let fits : at + size ≤ length (xs ++ (old ++ rest)) =
      omega (arith, length-append xs (old ++ rest), length-append old rest) in
    ground (arith, whole, before, behind, fits, b)

-- The same with a header before it.
copy_to-behind :
    (at size : ℕ) (h xs src old rest : Bytes)
    → length h + length xs ≡ at
    → length src ≡ size
    → length old ≡ size
    → copy_to at size src (h ++ (xs ++ (old ++ rest))) ≡ done (h ++ (xs ++ (src ++ rest)))
copy_to-behind at size h xs src old rest a b c =
    rw (append_assoc h xs (old ++ rest), append_assoc h xs (src ++ rest)) at
      (copy_to-part at size (h ++ xs) src old rest (omega (arith, length-append h xs)) b c)

abbrev pub header : ℕ → ℕ → ℕ → ℕ → ℕ → ℕ → ℕ → ℕ → ℕ → ℕ → ℕ → ℕ → Bytes → Bytes → Bytes → Bytes
header b0 b1 b2 b3 b4 b5 b6 b7 b8 b9 b10 b11 src dst rest =
    b0 ∷ b1 ∷ b2 ∷ b3 ∷ b4 ∷ b5 ∷ b6 ∷ b7 ∷ b8 ∷ b9 ∷ b10 ∷ b11 ∷ (src ++ (dst ++ rest))

write_header_lem :
    (b0 b1 b2 b3 b4 b5 b6 b7 b8 b9 b10 b11 total_len : ℕ) (src dst src_ip dst_ip rest : Bytes)
    → IsFour src
    → IsFour dst
    → IsFour src_ip
    → IsFour dst_ip
    → write_header src_ip dst_ip total_len
        (header b0 b1 b2 b3 b4 b5 b6 b7 b8 b9 b10 b11 src dst rest)
      ≡ done (
          header b0 b1
            (total_len / 256 % 256)
            (total_len % 256)
            b4
            b5
            b6
            b7
            b8
            b9
            0
            0
            src_ip
            dst_ip
            rest)
unfolding write_header copy_to to4
write_header_lem b0 b1 b2 b3 b4 b5 b6 b7 b8 b9 b10 b11 total_len _ _ _ _ rest (four s0 s1 s2 s3)
      (four d0 d1 d2 d3) (four i0 i1 i2 i3) (four o0 o1 o2 o3) =
    ground arith

abbrev old : Bytes
old = 0 ∷ 0 ∷ []

write_udp_lem :
    (ihl src_port dst_port udp_len : ℕ) (dns_data h fill : Bytes)
    → length h ≡ ihl
    → length fill ≡ length dns_data
    → write_udp ihl src_port dst_port udp_len dns_data (h ++ (0 ∷ 0 ∷ 0 ∷ 0 ∷ 0 ∷ 0 ∷ 0 ∷ 0 ∷ fill))
      ≡ done (h ++ (word src_port ++ (word dst_port ++ (word udp_len ++ (0 ∷ 0 ∷ dns_data)))))
unfolding write_udp
write_udp_lem ihl src_port dst_port udp_len dns_data h fill e f =
    then-done _
      (copy_to-behind ihl 2 h [] (word src_port) old (old ++ (old ++ (old ++ fill)))
        (omega (arith, e)) refl refl)
      (then-done _
        (copy_to-behind (ihl + 2) 2 h (word src_port) (word dst_port) old (old ++ (old ++ fill))
          (omega (arith, e)) refl refl)
        (then-done _
          (copy_to-behind (ihl + 4) 2 h (word src_port ++ word dst_port) (word udp_len) old
            (old ++ fill) (omega (arith, e)) refl refl)
          (then-done _
            (copy_to-behind (ihl + 6) 2 h (word src_port ++ (word dst_port ++ word udp_len)) old old
              fill (omega (arith, e)) refl refl)
            (rw (append-nil fill, append-nil dns_data) at
              (copy_to-behind (ihl + 8) (length dns_data) h
                (word src_port ++ (word dst_port ++ (word udp_len ++ old))) dns_data fill []
                (omega (arith, e)) refl f)))))

zeros-append : (m n : ℕ) → zeros (m + n) ≡ zeros m ++ zeros n
zeros-append zero n = ap zeros (omega arith)
zeros-append (suc m) n =
    ap zeros {x = suc m + n} {y = suc (m + n)} (omega arith)
    ∙ ap (λ (bs : Bytes). 0 ∷ bs) (zeros-append m n)

copied :
    (ihl n : ℕ) (h rest : Bytes)
    → length h ≡ ihl
    → copy_to 0 ihl (take ihl (h ++ rest)) (zeros (ihl + (8 + n)))
      ≡ done (h ++ (zeros 8 ++ zeros n))
copied ihl n h rest e =
    rw (take_exact ihl h rest e, zeros-append ihl (8 + n), zeros-append 8 n)
      (copy_to-part 0 ihl [] h (zeros ihl) (zeros 8 ++ zeros n) refl e (length-zeros ihl))

pub built :
    (b0 b1 b2 b3 b4 b5 b6 b7 b8 b9 b10 b11 ihl src_port dst_port : ℕ)
    (src dst src_ip dst_ip opts rest dns_data : Bytes)
    → IsFour src
    → IsFour dst
    → IsFour src_ip
    → IsFour dst_ip
    → 20 + length opts ≡ ihl
    → build_response_packet
        (header b0 b1 b2 b3 b4 b5 b6 b7 b8 b9 b10 b11 src dst (opts ++ rest))
        ihl
        src_ip
        dst_ip
        src_port
        dst_port
        dns_data
      ≡ done (
          header b0 b1
            ((ihl + (8 + length dns_data)) / 256 % 256)
            ((ihl + (8 + length dns_data)) % 256)
            b4
            b5
            b6
            b7
            b8
            b9
            0
            0
            src_ip
            dst_ip
            (opts
              ++ (word src_port
                  ++ (word dst_port ++ (word (8 + length dns_data) ++ (0 ∷ 0 ∷ dns_data))))))
unfolding build_response_packet
built b0 b1 b2 b3 b4 b5 b6 b7 b8 b9 b10 b11 ihl src_port dst_port _ _ _ _ opts rest dns_data
      (four s0 s1 s2 s3) (four d0 d1 d2 d3) (four i0 i1 i2 i3) (four o0 o1 o2 o3) e =
    let n = length dns_data in
    let src = s0 ∷ s1 ∷ s2 ∷ s3 ∷ [] in
    let dst = d0 ∷ d1 ∷ d2 ∷ d3 ∷ [] in
    let h = header b0 b1 b2 b3 b4 b5 b6 b7 b8 b9 b10 b11 src dst opts in
    then-done _ (copied ihl n h rest (omega (arith, e))) (
      then-done _
        (write_header_lem b0 b1 b2 b3 b4 b5 b6 b7 b8 b9 b10 b11 (ihl + (8 + n)) src dst
          (i0 ∷ i1 ∷ i2 ∷ i3 ∷ []) (o0 ∷ o1 ∷ o2 ∷ o3 ∷ []) (opts ++ (zeros 8 ++ zeros n))
          (four s0 s1 s2 s3) (four d0 d1 d2 d3) (four i0 i1 i2 i3) (four o0 o1 o2 o3))
        (write_udp_lem ihl src_port dst_port (8 + n) dns_data
          (header b0 b1 ((ihl + (8 + n)) / 256 % 256) ((ihl + (8 + n)) % 256) b4 b5 b6 b7 b8 b9 0 0
            (i0 ∷ i1 ∷ i2 ∷ i3 ∷ []) (o0 ∷ o1 ∷ o2 ∷ o3 ∷ []) opts)
          (zeros n) (omega (arith, e)) (length-zeros n)))
