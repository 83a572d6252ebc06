-- ===== src/TcpProxy/Verify.antt =====
-- internal/proxy/tcp.go: the check of a certificate, and what the connection does with its result. PEM
-- decoding, X.509 and the connection are parameters.
use dnn_daemon.Common.{
  ◌-◌, ◌≡◌, ◌≢◌, refl, sym, ap, ◌∙◌, ◌⊎◌, ◌↔◌, inl, inr, Bool, true, not, ◌&&◌, ◌||◌, Option, none,
  some, List, [], ◌∷◌, ◌++◌, length, take, drop, any, ltb, if◌then◌else◌, is_nil, arith, Bool-cases,
  length-append, length-take, length-drop, ◌<◌, Option-cases,
}
use dnn_daemon.Common.Bytes.{Bytes, codes, equal, equal_self, equal→eq}
use dnn_daemon.Text.{has_prefix, has_suffix}
use dnn_daemon.Text.Affixes.{
  has_prefix-splits, has_prefix-append, has_suffix-splits, has_suffix-append_self,
}
use dnn_daemon.Resolver.Connection.{CertInfo}
use dnn_daemon.Dns.{pem_of}

-- A parsed certificate: its bytes and its DNS names.
pub record X509 : Type 0 where
  pub raw : Bytes
  pub dns_names : List Bytes

pub data VerifyError : Type 0 where
  no_server_cert not_decoded not_parsed mismatch : VerifyError

-- An error, or none, with the word whether the names match, which is only logged.
pub data Check : Type 0 where
  rejected : VerifyError → Check
  accepted : (names_match : Bool) → Check

unfoldable pub name_matches : Bytes → Bytes → Bool
unfolding equal
name_matches dnn_name name =
    equal name dnn_name
    || (ltb 2 (length name)
        && has_prefix name (codes "*.")
        && (ltb (length (drop 1 name)) (length dnn_name) && has_suffix dnn_name (drop 1 name)))

unfoldable pub contains_dnn_name : X509 → Bytes → Bool
contains_dnn_name cert dnn_name = any (name_matches dnn_name) cert.dns_names

module _ (decode : Bytes → Option Bytes) (parse : Bytes → Option X509) where
  abbrev pub compared : Bytes → Bytes → Option X509 → Check
  compared server_cert dnn_name none = rejected not_parsed
  compared server_cert dnn_name (some cert) =
      if not (equal server_cert cert.raw)
      then rejected mismatch
      else accepted (contains_dnn_name cert dnn_name)

  abbrev pub decoded : Bytes → Bytes → Option Bytes → Check
  decoded server_cert dnn_name none = rejected not_decoded
  decoded server_cert dnn_name (some block) = compared server_cert dnn_name (parse block)

  -- By the certificates of the server.
  unfoldable pub verify_cert : List Bytes → Bytes → Bytes → Check
  verify_cert [] pem dnn_name = rejected no_server_cert
  verify_cert (server_cert ∷ more) pem dnn_name = decoded server_cert dnn_name (decode pem)

  -- `none` is that the server cannot be reached; else the bytes are copied, whatever the check says,
  -- if there is one.
  abbrev pub proxy_tls : Option (List Bytes) → Option CertInfo → Bytes → Option (Option Check)
  proxy_tls none cert dnn_name = none
  proxy_tls (some peers) cert dnn_name =
      if not (is_nil (pem_of cert))
      then some (some (verify_cert peers (pem_of cert) dnn_name))
      else some none

-- A name of a certificate stands for a DNN name: it is that name, or a wildcard whose star takes any
-- part of it, of one label or more.
pub data Names (dnn_name name : Bytes) : Type 0 where
  same : name ≡ dnn_name → Names dnn_name name
  wildcard :
      (part rest : Bytes)
      → name ≡ codes "*." ++ rest
      → dnn_name ≡ part ++ (b'.' ∷ rest)
      → part ≢ []
      → rest ≢ []
      → Names dnn_name name

abbrev pub SomeNames : Bytes → List Bytes → Type 0
SomeNames dnn_name [] = ⊥
SomeNames dnn_name (name ∷ names) = Names dnn_name name ⊎ SomeNames dnn_name names

name_matches_sound :
    (dnn_name name : Bytes) → name_matches dnn_name name ≡ true → Names dnn_name name
unfolding name_matches
name_matches_sound dnn_name name h = elim (Bool-cases (equal name dnn_name)) [
  | inl a ↦ same (equal→eq name dnn_name a)
  | inr a ↦
      let e : name ≡ codes "*." ++ drop 2 name =
        has_prefix-splits name (codes "*.") (ground arith) in
      let f = has_suffix-splits dnn_name (drop 1 name) (ground arith) in
      let part = take (length dnn_name - length (drop 1 name)) dnn_name in
      let longer : 2 < length name = ground arith in
      let shorter : length (drop 1 name) < length dnn_name = ground arith in
      let cut = length-take (length dnn_name - length (drop 1 name)) dnn_name in
      let rests = length-drop 2 name in
      wildcard part (drop 2 name) e (f ∙ ap (λ x. part ++ x) (ap (drop 1) e))
        (λ z. omega (arith, cut, shorter, ap length z))
        (λ z. omega (arith, rests, longer, ap length z))
]

some_length : (xs : Bytes) → xs ≢ [] → 0 < length xs
some_length [] h = absurd (h refl)
some_length (x ∷ xs) h = omega arith

star_matches :
    (part rest : Bytes)
    → part ≢ []
    → rest ≢ []
    → name_matches (part ++ (b'.' ∷ rest)) (codes "*." ++ rest) ≡ true
unfolding name_matches
star_matches part rest p q = ground (
  arith,
  has_prefix-append (codes "*.") rest,
  has_suffix-append_self part (b'.' ∷ rest),
  some_length part p,
  some_length rest q,
  length-append part (b'.' ∷ rest),
)

name_matches_complete :
    (dnn_name name : Bytes) → Names dnn_name name → name_matches dnn_name name ≡ true
unfolding name_matches
name_matches_complete dnn_name name (same e) = rw (e, equal_self dnn_name) refl
name_matches_complete dnn_name name (wildcard part rest e f p q) =
    rw (e, f) (star_matches part rest p q)

contains_iff :
    (dnn_name : Bytes) (names : List Bytes)
    → (any (name_matches dnn_name) names ≡ true) ↔ SomeNames dnn_name names
contains_iff dnn_name [] = (λ h. cc, λ h. absurd h)
contains_iff dnn_name (name ∷ names) =
    let (sound, complete) = contains_iff dnn_name names in
    (
      λ h. elim (Bool-cases (name_matches dnn_name name)) [
        | inl a ↦ inl (name_matches_sound dnn_name name a)
        | inr a ↦ inr (sound (rw a at h))
      ],
      λ h. elim h [
        | inl n ↦ rw (name_matches_complete dnn_name name n) refl
        | inr n ↦ ground (arith, complete n)
      ],
    )

module _ (decode : Bytes → Option Bytes) (parse : Bytes → Option X509) where
  -- The first certificate of the server is, byte for byte, the declared one, which names the DNN name.
  pub record Accepted (peers : List Bytes) (pem dnn_name : Bytes) : Type 0 where
    pub server_cert : Bytes
    pub more : List Bytes
    pub block : Bytes
    pub cert : X509
    pub sent : peers ≡ server_cert ∷ more
    pub decodes : decode pem ≡ some block
    pub parses : parse block ≡ some cert
    pub bytes : cert.raw ≡ server_cert
    pub named : SomeNames dnn_name cert.dns_names

  compared_sound :
      (server_cert dnn_name : Bytes) (cert : X509)
      → compared decode parse server_cert dnn_name (some cert) ≡ accepted true
      → (cert.raw ≡ server_cert) × SomeNames dnn_name cert.dns_names
  unfolding contains_dnn_name
  compared_sound server_cert dnn_name cert h = elim (Bool-cases (equal server_cert cert.raw)) [
    | inl a ↦ (
      sym (equal→eq server_cert cert.raw a),
      (contains_iff dnn_name cert.dns_names).0 (ground (arith, h, a)),
    )
    | inr a ↦ (let bad = rw a at h in cc)
  ]

  verify_cert_sound :
      (peers : List Bytes) (pem dnn_name : Bytes)
      → verify_cert decode parse peers pem dnn_name ≡ accepted true
      → Accepted peers pem dnn_name
  unfolding verify_cert
  verify_cert_sound [] pem dnn_name h = cc
  verify_cert_sound (server_cert ∷ more) pem dnn_name h = elim (Option-cases (decode pem)) [
    | inl d ↦ (let bad = rw d at h in cc)
    | inr (block, d) ↦ elim (Option-cases (parse block)) [
      | inl p ↦ (let bad = rw (d, p) at h in cc)
      | inr (cert, p) ↦
          let (equals, named) = compared_sound server_cert dnn_name cert (rw (d, p) at h) in
          record {
            server_cert = server_cert;
            more = more;
            block = block;
            cert = cert;
            sent = refl;
            decodes = d;
            parses = p;
            bytes = equals;
            named = named;
          }
    ]
  ]

  -- The check passes, with no warning about the names, exactly when the first certificate of the
  -- server is byte for byte the declared one, and one of its names stands for the DNN name.
  pub verify_cert-accepted_iff :
      (peers : List Bytes) (pem dnn_name : Bytes)
      → (verify_cert decode parse peers pem dnn_name ≡ accepted true) ↔ Accepted peers pem dnn_name
  verify_cert-accepted_iff peers pem dnn_name = (
    verify_cert_sound peers pem dnn_name,
    λ a.
        unfold verify_cert in
        rw (a.sent, a.decodes, a.parses, a.bytes, equal_self a.server_cert)
          (unfold contains_dnn_name in
            ap accepted ((contains_iff dnn_name a.cert.dns_names).1 a.named)),
  )
