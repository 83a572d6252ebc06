-- ===== src/CertVerify/Cover.antt =====
-- Which visited names a name of a certificate covers.
use dnn_daemon.Common.{
  ◌-◌, ◌≡◌, ◌≢◌, refl, ap, ◌∙◌, ◌⊎◌, inl, inr, true, false, [], ◌∷◌, ◌++◌, length, take, drop, any,
  arith, Bool-cases, ◌↔◌, List, Option, none, some,
}
use dnn_daemon.Common.Bytes.{Bytes, equal, equal_self, equal→eq, codes}
use mathlib.Core.Option.{none-ne-some}
use dnn_daemon.Runtime.{Runtime}
use dnn_daemon.Common.{is_nil→ne, ne→is_nil}
use dnn_daemon.Text.{to_lower, has_suffix, contains}
use dnn_daemon.Text.Affixes.{
  has_prefix-splits, has_prefix-append, has_suffix-splits, has_suffix-append_self, cut_suffix,
}
use dnn_daemon.CertVerify.{
  single_label, name_covers, cert_covers, parsed_covers, cert_covers_domain, dnn_id_matches,
  id_matches, Certificate,
}

-- One name of a certificate covers a visited name: it is that name, or it is a wildcard and the
-- visited name puts one label, not empty, in the place of the star.
pub data Covers (san visited : Bytes) : Type 0 where
  same : visited ≡ san → Covers san visited
  wildcard :
      (label rest : Bytes)
      → san ≡ codes "*." ++ rest
      → visited ≡ label ++ (b'.' ∷ rest)
      → label ≢ []
      → contains label b'.' ≡ false
      → Covers san visited

single_label_iff :
    (label : Bytes) → (single_label label ≡ true) ↔ ((label ≢ []) × (contains label b'.' ≡ false))
unfolding single_label
single_label_iff label =
    (λ h. (is_nil→ne label (ground arith), ground arith), λ h. ground (arith, ne→is_nil label))

name_covers_sound : (visited san : Bytes) → name_covers visited san ≡ true → Covers san visited
unfolding name_covers
name_covers_sound visited san h = elim (Bool-cases (equal visited san)) [
  | inl a ↦ same (equal→eq visited san a)
  | inr a ↦
      let e : san ≡ codes "*." ++ drop 2 san = has_prefix-splits san (codes "*.") (ground arith) in
      let f = has_suffix-splits visited (drop 1 san) (ground arith) in
      let label = take (length visited - length (drop 1 san)) visited in
      let one = (single_label_iff label).0 (ground arith) in
      wildcard label (drop 2 san) e (f ∙ ap (λ x. label ++ x) (ap (drop 1) e)) one.0 one.1
]

covers_star :
    (label rest : Bytes)
    → single_label label ≡ true
    → name_covers (label ++ (b'.' ∷ rest)) (codes "*." ++ rest) ≡ true
unfolding name_covers
covers_star label rest h = elim (Bool-cases (equal (label ++ (b'.' ∷ rest)) (codes "*." ++ rest))) [
  | inl a ↦ rw a
  | inr a ↦
      rw
        (
          a,
          has_prefix-append (codes "*.") rest,
          has_suffix-append_self label (b'.' ∷ rest),
          cut_suffix label (b'.' ∷ rest),
        )
        h
]

name_covers_complete : (visited san : Bytes) → Covers san visited → name_covers visited san ≡ true
name_covers_complete visited san (same e) = rw e (unfold name_covers in rw (equal_self san))
name_covers_complete visited san (wildcard label rest e f ne dots) =
    rw (e, f) (covers_star label rest ((single_label_iff label).1 (ne, dots)))

abbrev pub SomeCovers : (Bytes → Bytes) → Bytes → List Bytes → Type 0
SomeCovers lower visited [] = ⊥
SomeCovers lower visited (san ∷ sans) = Covers (lower san) visited ⊎ SomeCovers lower visited sans

any_sound :
    (lower : Bytes → Bytes) (visited : Bytes) (sans : List Bytes)
    → any (λ san. name_covers visited (lower san)) sans ≡ true
    → SomeCovers lower visited sans
any_sound lower visited [] h = cc
any_sound lower visited (san ∷ sans) h = elim (Bool-cases (name_covers visited (lower san))) [
  | inl a ↦ inl (name_covers_sound visited (lower san) a)
  | inr a ↦ inr (any_sound lower visited sans (rw a at h))
]

any_complete :
    (lower : Bytes → Bytes) (visited : Bytes) (sans : List Bytes)
    → SomeCovers lower visited sans
    → any (λ san. name_covers visited (lower san)) sans ≡ true
any_complete lower visited [] h = absurd h
any_complete lower visited (san ∷ sans) (inl c) = rw (name_covers_complete visited (lower san) c)
any_complete lower visited (san ∷ sans) (inr c) = ground (arith, any_complete lower visited sans c)

module _ ⦃r : Runtime⦄ where
  -- A parsed certificate covers a visited domain by one of its DNS names or by its common name, all
  -- in lower case.
  abbrev pub CertCovers : Certificate → Bytes → Type 0
  CertCovers cert visited =
      SomeCovers to_lower visited cert.dns_names
      ⊎ ((to_lower cert.common_name ≢ []) × Covers (to_lower cert.common_name) visited)

  cert_covers_sound :
      (cert : Certificate) (visited : Bytes)
      → cert_covers cert visited ≡ true
      → CertCovers cert visited
  unfolding cert_covers
  cert_covers_sound cert visited h =
      elim (Bool-cases (any (λ san. name_covers visited (to_lower san)) cert.dns_names)) [
        | inl a ↦ inl (any_sound to_lower visited cert.dns_names a)
        | inr a ↦ inr (
          is_nil→ne (to_lower cert.common_name) (ground arith),
          name_covers_sound visited (to_lower cert.common_name) (ground arith),
        )
      ]

  cert_covers_complete :
      (cert : Certificate) (visited : Bytes)
      → CertCovers cert visited
      → cert_covers cert visited ≡ true
  unfolding cert_covers
  cert_covers_complete cert visited (inl c) = rw (any_complete to_lower visited cert.dns_names c)
  cert_covers_complete cert visited (inr (ne, c)) = ground (
    arith,
    ne→is_nil (to_lower cert.common_name) ne,
    name_covers_complete visited (to_lower cert.common_name) c,
  )

  parsed_covers_iff :
      (o : Option Certificate) (visited : Bytes)
      → (parsed_covers o visited ≡ true)
        ↔ ((cert : Certificate) × (o ≡ some cert) × CertCovers cert visited)
  parsed_covers_iff none visited = (λ h. cc, λ h. absurd (none-ne-some h.0 h.1))
  parsed_covers_iff (some cert) visited = (
    λ h. (cert, refl, cert_covers_sound cert visited h),
    λ h. let e : cert ≡ h.0 = cc (h.1) in rw e (cert_covers_complete h.0 visited h.2),
  )

  -- A certificate covers a visited domain exactly when it can be parsed and one of its DNS names, or
  -- its common name, is that domain or is a wildcard with one label, not empty, for the star.
  pub cert_covers_domain_iff :
      (parse : Bytes → Option Certificate) (pem visited_domain : Bytes)
      → (cert_covers_domain parse pem visited_domain ≡ true) ↔ (
          (cert : Certificate) × (parse pem ≡ some cert)
          × CertCovers cert (to_lower visited_domain))
  unfolding cert_covers_domain
  cert_covers_domain_iff parse pem visited_domain =
      parsed_covers_iff (parse pem) (to_lower visited_domain)

-- The same for the looser test `dnnIDMatches`: any labels may stand before the ID.
pub data MatchesId (id visited : Bytes) : Type 0 where
  whole : visited ≡ id → MatchesId id visited
  below : (labels : Bytes) → visited ≡ labels ++ (b'.' ∷ id) → MatchesId id visited
  starred :
      (labels rest : Bytes)
      → id ≡ codes "*." ++ rest
      → visited ≡ labels ++ (b'.' ∷ rest)
      → MatchesId id visited

id_matches_sound : (visited id : Bytes) → id_matches visited id ≡ true → MatchesId id visited
unfolding id_matches
id_matches_sound visited id h = elim (Bool-cases (equal visited id)) [
  | inl a ↦ whole (equal→eq visited id a)
  | inr a ↦ elim (Bool-cases (has_suffix visited (b'.' ∷ id))) [
    | inl b ↦ below _ (has_suffix-splits visited (b'.' ∷ id) b)
    | inr b ↦
        let e : id ≡ codes "*." ++ drop 2 id = has_prefix-splits id (codes "*.") (ground arith) in
        let f = has_suffix-splits visited (drop 1 id) (ground arith) in
        starred _ (drop 2 id) e
          (f ∙ ap (λ x. take (length visited - length (drop 1 id)) visited ++ x) (ap (drop 1) e))
  ]
]

id_matches_complete : (visited id : Bytes) → MatchesId id visited → id_matches visited id ≡ true
unfolding id_matches
id_matches_complete visited id (whole e) = rw (e, equal_self id)
id_matches_complete visited id (below labels e) =
    ground (arith, rw (← e) at (has_suffix-append_self labels (b'.' ∷ id)))
id_matches_complete visited id (starred labels rest e f) = ground (
  arith,
  rw (← e) at (has_prefix-append (codes "*.") rest),
  rw (← f) at (has_suffix-append_self labels (b'.' ∷ rest)),
  ap (drop 1) e,
)

module _ ⦃r : Runtime⦄ where
  -- `dnnIDMatches` accepts a visited name exactly when, in lower case, it is the ID, ends in a dot and
  -- the ID, or ends in what follows the star of a wildcard ID: of any number of labels.
  dnn_id_matches_iff :
      (visited_name cert_dnn_id : Bytes)
      → (dnn_id_matches visited_name cert_dnn_id ≡ true)
        ↔ MatchesId (to_lower cert_dnn_id) (to_lower visited_name)
  unfolding dnn_id_matches
  dnn_id_matches_iff visited_name cert_dnn_id = (
    id_matches_sound (to_lower visited_name) (to_lower cert_dnn_id),
    id_matches_complete (to_lower visited_name) (to_lower cert_dnn_id),
  )
