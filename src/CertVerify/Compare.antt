-- ===== src/CertVerify/Compare.antt =====
-- `VerifyCert` and `PreflightVerify` accept a server exactly by its certificate.
use dnn_daemon.Common.{
  ◌≡◌, ◌≢◌, refl, ◌⊎◌, inl, inr, true, [], ◌∷◌, if◌then◌else◌, is_nil, arith, ◌||◌, ◌==◌, ◌↔◌,
  Option, none, some,
}
use dnn_daemon.Common.Bytes.{Bytes, equal, equal_iff}
use dnn_daemon.Common.Int.{ℤ}
use dnn_daemon.Runtime.{Runtime}
use dnn_daemon.Common.{is_nil→ne, ne→is_nil}
use dnn_daemon.CertVerify.{
  no_declared_cert, cert_mismatch, no_server_cert, Certificate, normalize_pem, compare_certs,
  verify_cert, Handshake, connected, dial_failed, preflight_verify,
}

-- The bytes that count in a comparison: all but space, line feed and carriage return.
abbrev pub significant : Bytes → Bytes
significant [] = []
significant (c ∷ s) =
    if c == b' ' || c == b'\n' || c == b'\r' then significant s else c ∷ significant s

normalize_pem-significant : (pem : Bytes) → normalize_pem pem ≡ significant pem
unfolding normalize_pem
normalize_pem-significant [] = refl
normalize_pem-significant (c ∷ s) = ground (arith, normalize_pem-significant s)

compare_certs_iff :
    (pem1 pem2 : Bytes) → (compare_certs pem1 pem2 ≡ true) ↔ (significant pem1 ≡ significant pem2)
unfolding compare_certs
compare_certs_iff pem1 pem2 =
    rw (normalize_pem-significant pem1, normalize_pem-significant pem2)
      (equal_iff (significant pem1) (significant pem2))

Handshake-cases :
    (h : Handshake)
    → ((why : Bytes) × (h ≡ dial_failed why))
      ⊎ ((h ≡ connected none) ⊎ ((pem : Bytes) × (h ≡ connected (some pem))))
Handshake-cases (dial_failed why) = inl (why, refl)
Handshake-cases (connected none) = inr (inl refl)
Handshake-cases (connected (some pem)) = inr (inr (pem, refl))

module _ ⦃r : Runtime⦄ (parse : Bytes → Option Certificate) where
  -- A server is accepted exactly when a certificate is declared, the server sent one, and they are
  -- equal but for spaces and line ends; the name visited has no part in it. Else the error tells the
  -- first of these that failed.
  pub verify_cert_iff :
      (declared_pem server_pem dnn_name : Bytes)
      → (((verify_cert parse declared_pem server_pem dnn_name).valid ≡ true) ↔ (
          (declared_pem ≢ [])
          × (server_pem ≢ [])
          × (significant declared_pem ≡ significant server_pem)))
        × ((verify_cert parse declared_pem server_pem dnn_name).error ≡ (
            if is_nil declared_pem
            then some no_declared_cert
            else if is_nil server_pem
            then some no_server_cert
            else if equal (significant declared_pem) (significant server_pem)
            then none
            else some cert_mismatch))
  unfolding verify_cert
  verify_cert_iff declared_pem server_pem dnn_name =
      let same = compare_certs_iff declared_pem server_pem in
      let known = equal_iff (significant declared_pem) (significant server_pem) in
      (
        (
          ground (arith, is_nil→ne declared_pem, is_nil→ne server_pem, same),
          ground (arith, ne→is_nil declared_pem, ne→is_nil server_pem, same),
        ),
        ground (arith, same, known),
      )

  -- A pre-flight check passes exactly when a certificate is declared, the server is reached and its
  -- leaf certificate is accepted.
  preflight_verify_iff :
      (handshake : Bytes → ℤ → Bytes → Handshake) (ip : Bytes) (port : ℤ)
      (declared_pem dnn_name : Bytes)
      → ((preflight_verify parse handshake ip port declared_pem dnn_name).verified ≡ true) ↔ (
          (pem : Bytes) × (handshake ip port dnn_name ≡ connected (some pem))
          × ((verify_cert parse declared_pem pem dnn_name).valid ≡ true))
  unfolding preflight_verify
  preflight_verify_iff handshake ip port declared_pem dnn_name =
      elim (Handshake-cases (handshake ip port dnn_name)) [
        | inl (why, e) ↦ (λ h. ground arith, λ h. ground (arith, h))
        | inr (inl e) ↦ (λ h. ground arith, λ h. ground (arith, h))
        | inr (inr (pem, e)) ↦ (
          λ h. (pem, e, ground arith),
          λ h.
              ground (
                arith,
                (verify_cert_iff declared_pem h.0 dnn_name).0.0 h.2,
                ne→is_nil declared_pem,
              ),
        )
      ]
