-- ===== src/Capture/Windows/Passes.antt =====
-- What is passed on.
use dnn_daemon.Common.{
  ℕ, ◌+◌, ◌*◌, ◌%◌, ◌≡◌, refl, true, false, Option, none, some, List, [], ◌∷◌, if◌then◌else◌, drop,
  get_or, is_nil, Bool-cases, inl, inr,
}
use dnn_daemon.Common.Bytes.{Bytes}
use dnn_daemon.Common.Int.{ℤ}
use dnn_daemon.Common.Outcome.{Outcome, done}
use dnn_daemon.Runtime.{Runtime}
use dnn_daemon.Text.{trim_suffix}
use dnn_daemon.Detector.{is_dnn_name}
use dnn_daemon.Mapper.{Cache}
use dnn_daemon.CertVerify.{Certificate, Handshake}
use dnn_daemon.Resolver.Answer.{Resolution}
use dnn_daemon.Dns.{Question}
use dnn_daemon.Stack.{Message, Response}
use dnn_daemon.Capture.{name_to_resolve}
use dnn_daemon.Capture.Windows.{
  reinject, with_cache, handle_dnn, first_question, queried, is_dns, process_packet,
}

module _ ⦃r : Runtime⦄ (resolve : Bytes → Outcome (Option Resolution))
    (handshake : Bytes → ℤ → Bytes → Handshake) (parse : Bytes → Option Certificate)
    (pack : Response → Option Bytes) (unpack : Bytes → Option Message) where
  -- The name that a packet asks for.
  abbrev name_of : List Question → Option Bytes
  name_of [] = none
  name_of (q ∷ _) = some (trim_suffix q.name (b'.' ∷ []))

  abbrev name_in : Option Message → Option Bytes
  name_in none = none
  name_in (some msg) = name_of msg.questions

  abbrev pub asked_for : Bytes → Option Bytes
  asked_for packet =
      if is_dns packet
      then name_in (unpack (drop (get_or packet 0 0 % 16 * 4 + 8) packet))
      else none

  -- No name of a query for DNN resolves.
  abbrev Unresolved : Option Bytes → Type 0
  Unresolved o =
      (name : Bytes)
      → o ≡ some name
      → is_dnn_name name ≡ true
      → resolve (name_to_resolve name) ≡ done none

  passed :
      (c : Cache) (packet addr : Bytes)
      → is_nil packet ≡ false
      → is_nil addr ≡ false
      → with_cache resolve handshake parse pack unpack c (reinject packet addr)
        ≡ done (c, packet, addr)
  unfolding reinject
  passed c packet addr p a = rw (p, a) refl

  first_question-passes :
      (c : Cache) (packet addr : Bytes) (ihl : ℕ) (msg : Message) (qs : List Question)
      → is_nil packet ≡ false
      → is_nil addr ≡ false
      → Unresolved (name_of qs)
      → first_question resolve handshake parse pack unpack c packet addr ihl msg qs
        ≡ done (c, packet, addr)
  unfolding handle_dnn
  first_question-passes c packet addr ihl msg [] p a h = passed c packet addr p a
  first_question-passes c packet addr ihl msg (q ∷ more) p a h =
      let name = trim_suffix q.name (b'.' ∷ []) in
      elim (Bool-cases (is_dnn_name name)) [
        | inl d ↦ rw (d, h name refl d) (passed c packet addr p a)
        | inr d ↦ rw d (passed c packet addr p a)
      ]

  queried-passes :
      (c : Cache) (packet addr : Bytes) (ihl : ℕ) (o : Option Message)
      → is_nil packet ≡ false
      → is_nil addr ≡ false
      → Unresolved (name_in o)
      → queried resolve handshake parse pack unpack c packet addr ihl o ≡ done (c, packet, addr)
  queried-passes c packet addr ihl none p a h = passed c packet addr p a
  queried-passes c packet addr ihl (some msg) p a h =
      first_question-passes c packet addr ihl msg msg.questions p a h

  -- A packet that is not empty, with an address that is not, is passed on as it is, and the cache is
  -- left alone, unless it asks for a DNN name that the resolver finds: one that is no DNS query, or
  -- that does not unpack, has no question or asks for another name, and one whose name the resolver
  -- does not find.
  pub process_packet-passes :
      (c : Cache) (packet addr : Bytes)
      → is_nil packet ≡ false
      → is_nil addr ≡ false
      → ((name : Bytes)
          → asked_for packet ≡ some name
          → is_dnn_name name ≡ true
          → resolve (name_to_resolve name) ≡ done none)
      → process_packet resolve handshake parse pack unpack c packet addr ≡ done (c, packet, addr)
  unfolding process_packet
  process_packet-passes c packet addr p a h = elim (Bool-cases (is_dns packet)) [
    | inl d ↦ rw d (
        queried-passes c packet addr (get_or packet 0 0 % 16 * 4)
          (unpack (drop (get_or packet 0 0 % 16 * 4 + 8) packet)) p a (rw d at h))
    | inr d ↦ rw d (passed c packet addr p a)
  ]
