-- ===== src/Dns/Queries.antt =====
-- A whole query: when it is forwarded, and what it is answered with.
use dnn_daemon.Common.Outcome.{Outcome, done}
use dnn_daemon.Common.{
  ◌≡◌, ◌≢◌, refl, inl, inr, Bool, true, false, Option, none, some, List, [], ◌∷◌, ◌++◌, any, arith,
  Bool-cases, ◌==◌, append_assoc, append-nil, sym, ap, ◌∙◌,
}
use dnn_daemon.Common.Bytes.{Bytes}
use dnn_daemon.Common.Int.{ℤ}
use dnn_daemon.Runtime.{Runtime}
use dnn_daemon.Text.{trim_suffix}
use dnn_daemon.Detector.{is_dnn_name, get_tld}
use dnn_daemon.Mapper.{Cache, register, normalize, npub_to_ipv6}
use dnn_daemon.CertVerify.{Certificate, Handshake}
use dnn_daemon.Resolver.Answer.{Resolution}
use dnn_daemon.Dns.{
  Question, Answer, aaaa, add_answer, handle_a, handle_aaaa, handle_question, handle_dnn,
  handle_query, target_of, to4_of, is_verified, plain_name, Route, transport, direct, proxied,
  nowhere, route, follow,
}
use dnn_daemon.Dns.Routes.{Settled, handle_a-Settled}

module _ ⦃r : Runtime⦄ (resolve : Bytes → Outcome (Option Resolution))
    (handshake : Bytes → ℤ → Bytes → Handshake) (parse : Bytes → Option Certificate) where
  abbrev pub asked : Question → Bytes
  asked q = trim_suffix q.name (b'.' ∷ [])

  abbrev pub asks_dnn : Question → Bool
  asks_dnn q = is_dnn_name (asked q)

  -- Why an A query has no answer: the node finds nothing, or an address of no server it can use.
  pub data Unserved (dnn_name : Bytes) : Type 0 where
    not_found : resolve (target_of dnn_name) ≡ done none → Unserved dnn_name
    no_address :
        (res : Resolution)
        → resolve (target_of dnn_name) ≡ done (some res)
        → is_verified resolve handshake parse (plain_name dnn_name) (target_of dnn_name) res ≡ false
        → to4_of (r.parse_ip res.ip) ≡ none
        → Unserved dnn_name

  -- What one question adds to the answer, and the cache after it.
  pub data Contributes (c : Cache) (q : Question) : Cache → List Answer → Type 0 where
    settled :
        {c' : Cache} {answer : Answer}
        → q.qtype ≡ 1
        → Settled resolve handshake parse (asked q) c' answer
        → Contributes c q c' (answer ∷ [])
    unserved : q.qtype ≡ 1 → Unserved (asked q) → Contributes c q c []
    address :
        q.qtype ≡ 28
        → Contributes c q
            (register c (get_tld (asked q))).0
            (aaaa (npub_to_ipv6 (normalize (get_tld (asked q)))) ∷ [])
    no_type : q.qtype ≢ 1 → q.qtype ≢ 28 → Contributes c q c []

  -- The answer of a query is that of its questions, in their order, each with the cache after the one
  -- before.
  pub data Answered : Cache → List Question → Cache → List Answer → Type 0 where
    no_questions : {c : Cache} → Answered c [] c []
    after :
        {q : Question} {questions : List Question} {c c1 c' : Cache}
        {own more answers : List Answer}
        → Contributes c q c1 own
        → Answered c1 questions c' more
        → answers ≡ own ++ more
        → Answered c (q ∷ questions) c' answers

  -- What a query comes to: it is forwarded and changes nothing, or it is answered.
  pub data Handled (c : Cache) (questions : List Question)
      : Cache × Option (List Answer) → Type 0 where
    forwarded : any asks_dnn questions ≡ false → Handled c questions (c, none)
    answered :
        {c' : Cache} {answers : List Answer}
        → any asks_dnn questions ≡ true
        → Answered c questions c' answers
        → Handled c questions (c', some answers)

  -- The resolver returns a result for each name: it does not panic.
  abbrev pub Returns : Type 0
  Returns = (name : Bytes) → (found : Option Resolution) × (resolve name ≡ done found)

  abbrev listed : Option Answer → List Answer
  listed none = []
  listed (some x) = x ∷ []

  add_answer-listed :
      (o : Option Answer) (answers : List Answer) → add_answer o answers ≡ answers ++ listed o
  add_answer-listed none answers = sym (append-nil answers)
  add_answer-listed (some x) answers = refl

  route-nowhere :
      (res : Resolution) (verified : Bool)
      → route res verified ≡ nowhere
      → (verified ≡ false) × (to4_of (r.parse_ip res.ip) ≡ none)
  unfolding route
  route-nowhere res verified h = ground arith

  module _ (c : Cache) (q : Question) (is_a : q.qtype ≡ 1) where
    handle_a-follow :
        (res : Resolution) (way : Route)
        → resolve (target_of (asked q)) ≡ done (some res)
        → route res
            (is_verified resolve handshake parse (plain_name (asked q)) (target_of (asked q)) res)
          ≡ way
        → handle_a resolve handshake parse c (asked q)
          ≡ done (
              follow c
                (target_of (asked q))
                res
                (is_verified resolve handshake parse
                  (plain_name (asked q))
                  (target_of (asked q))
                  res)
                way)
    unfolding handle_a
    handle_a-follow res way e w = rw (e, w) refl

    -- An A query for which the resolver returns has a result, and this is what it adds.
    abbrev Adds : Type 0
    Adds =
        (c1 : Cache) × (o : Option Answer) × (handle_a resolve handshake parse c (asked q)
          ≡ done (c1, o))
        × Contributes c q c1 (listed o)

    follow-Adds :
        (res : Resolution) (way : Route)
        → resolve (target_of (asked q)) ≡ done (some res)
        → route res
            (is_verified resolve handshake parse (plain_name (asked q)) (target_of (asked q)) res)
          ≡ way
        → Adds
    follow-Adds res (transport ip) e w =
        let h = handle_a-follow res (transport ip) e w in
        (_, _, h, settled is_a (handle_a-Settled resolve handshake parse c _ (asked q) _ h))
    follow-Adds res (direct ip) e w =
        let h = handle_a-follow res (direct ip) e w in
        (_, _, h, settled is_a (handle_a-Settled resolve handshake parse c _ (asked q) _ h))
    follow-Adds res proxied e w =
        let h = handle_a-follow res proxied e w in
        (_, _, h, settled is_a (handle_a-Settled resolve handshake parse c _ (asked q) _ h))
    follow-Adds res nowhere e w =
        let (bad, no_ip) = route-nowhere res _ w in
        (_, _, handle_a-follow res nowhere e w, unserved is_a (no_address res e bad no_ip))

    found-Adds : (found : Option Resolution) → resolve (target_of (asked q)) ≡ done found → Adds
    found-Adds none e = (c, none, unfold handle_a in rw e refl, unserved is_a (not_found e))
    found-Adds (some res) e = follow-Adds res _ e refl

  handle_question-Contributes :
      Returns
      → (c : Cache) (q : Question)
      → (c1 : Cache) × (o : Option Answer) × (handle_question resolve handshake parse c q
          ≡ done (c1, o))
        × Contributes c q c1 (listed o)
  unfolding handle_question handle_aaaa register
  handle_question-Contributes h c q = elim (Bool-cases (q.qtype == 1)) [
    | inl a ↦
        let (found, e) = h (target_of (asked q)) in
        let (c1, o, f, adds) = found-Adds c q (ground arith) found e in (c1, o, rw a f, adds)
    | inr a ↦ elim (Bool-cases (q.qtype == 28)) [
      | inl b ↦ (_, some (aaaa _), rw (a, b) refl, address (ground arith))
      | inr b ↦ (c, none, rw (a, b) refl, no_type (λ e. ground arith) (λ e. ground arith))
    ]
  ]

  handle_dnn-Answered :
      Returns
      → (questions : List Question) (c : Cache) (answers : List Answer)
      → (c' : Cache) × (more : List Answer) × (handle_dnn resolve handshake parse c questions
            answers
          ≡ done (c', answers ++ more))
        × Answered c questions c' more
  unfolding handle_dnn
  handle_dnn-Answered h [] c answers =
      (c, [], ap (λ xs. done (c, xs)) (sym (append-nil answers)), no_questions)
  handle_dnn-Answered h (q ∷ questions) c answers =
      let (c1, o, e, own) = handle_question-Contributes h c q in
      let (c', more, f, rest) = handle_dnn-Answered h questions c1 (add_answer o answers) in
      (
        c',
        listed o ++ more,
        rw e (
            f
            ∙ ap (λ xs. done (c', xs ++ more)) (add_answer-listed o answers)
            ∙ ap (λ xs. done (c', xs)) (append_assoc answers (listed o) more)),
        after own rest refl,
      )

  -- If the resolver does not panic, every query is handled. It is forwarded, with the cache as it was,
  -- exactly when no question asks for a DNN name; else its answers are those of its questions, in their
  -- order, each made with the cache that the one before left. A question of type AAAA gets the address
  -- of the ID that GetTLD finds in its name, which is registered; one of type A is answered as `Settled` describes, or not at all,
  -- where the node finds nothing, or its server is not verified and has no IPv4 address; one of another
  -- type gets nothing.
  pub handle_query-Handled :
      ((name : Bytes) → (found : Option Resolution) × (resolve name ≡ done found))
      → (c : Cache) (questions : List Question)
      → (res : Cache × Option (List Answer)) × (handle_query resolve handshake parse c questions
          ≡ done res)
        × Handled c questions res
  unfolding handle_query
  handle_query-Handled h c questions = elim (Bool-cases (any asks_dnn questions)) [
    | inl a ↦
        let (c', answers, e, all) = handle_dnn-Answered h questions c [] in
        ((c', some answers), rw (a, e) refl, answered a all)
    | inr a ↦ ((c, none), rw a refl, forwarded a)
  ]
