-- ===== src/Dns/Routes.antt =====
-- Where queries are sent, and what the cache then says of the name.
use dnn_daemon.Common.Outcome.{Outcome, done, panic, ◌>>=◌, done-injective}
use dnn_daemon.Common.{
  ◌≡◌, refl, sym, ap, ◌∙◌, ◌⊎◌, inl, inr, Bool, true, false, [], is_nil, arith, Option, none, some,
}
use dnn_daemon.Common.Bytes.{Bytes, equal_self, codes}
use dnn_daemon.Common.Int.{ℤ}
use dnn_daemon.Runtime.{Runtime}
use dnn_daemon.Mapper.{Cache, normalize, register_with_ip, has_declared_cert}
use dnn_daemon.Mapper.Trust.{declares_cert-register, has_declared_cert-set_cert_verified}
use dnn_daemon.CertVerify.{Certificate, Handshake, connected, dial_failed, verify_cert}
use dnn_daemon.Resolver.Answer.{Resolution, has_transports}
use dnn_daemon.Dns.{
  Answer, a, aaaa, localhost, to4_of, Route, transport, direct, proxied, nowhere,
  verify_server_cert, route, remember, follow, is_verified, plain_name, target_of, handle_a,
  answer_resolved, pem_of, verify_ip, https_port, verified_by,
}
use mathlib.Core.Path.{subst}
use mathlib.Core.Option.{some_inj}

Route-cases :
    (way : Route)
    → ((ip : Bytes) × (way ≡ transport ip))
      ⊎ (((ip : Bytes) × (way ≡ direct ip)) ⊎ ((way ≡ proxied) ⊎ (way ≡ nowhere)))
Route-cases (transport ip) = inl (ip, refl)
Route-cases (direct ip) = inr (inl (ip, refl))
Route-cases proxied = inr (inr (inl refl))
Route-cases nowhere = inr (inr (inr refl))

module _ ⦃r : Runtime⦄ where
  -- After its two calls the cache trusts the name as the second says.
  remember-trust :
      (c : Cache) (target : Bytes) (res : Resolution) (verified : Bool) (cert_error : Bytes)
      → (verified ≡ true → is_nil (pem_of res.cert) ≡ false)
      → has_declared_cert (remember c target res verified cert_error) target ≡ verified
  remember-trust c target res verified cert_error h =
      let stored = register_with_ip c target res.ip res.port (pem_of res.cert) in
      ground (
        arith,
        has_declared_cert-set_cert_verified stored target verified cert_error target,
        equal_self (normalize target),
        declares_cert-register c target res.ip res.port (pem_of res.cert),
        h,
      )

  route-proxied :
      (res : Resolution) (verified : Bool) → route res verified ≡ proxied → verified ≡ true
  unfolding route
  route-proxied res verified h = ground arith

  route-direct :
      (res : Resolution) (verified : Bool) (ip : Bytes)
      → route res verified ≡ direct ip
      → (verified ≡ false) × (to4_of (r.parse_ip res.ip) ≡ some ip)
  unfolding route
  route-direct res verified ip h = ground arith

  route-transport :
      (res : Resolution) (verified : Bool) (ip : Bytes)
      → route res verified ≡ transport ip
      → (has_transports res ≡ true) × (r.parse_ip res.interception_ipv6 ≡ some ip)
  unfolding route
  route-transport res verified ip h = ground arith

  -- What an answer to an A query stands for, given the verdict on the server's certificate.
  pub data Explained (res : Resolution) (verified : Bool) : Answer → Type 0 where
    to_proxy : verified ≡ true → Explained res verified (a localhost)
    to_server :
        {ip : Bytes}
        → verified ≡ false
        → to4_of (r.parse_ip res.ip) ≡ some ip
        → Explained res verified (a ip)
    to_transport :
        {ip : Bytes}
        → has_transports res ≡ true
        → r.parse_ip res.interception_ipv6 ≡ some ip
        → Explained res verified (aaaa ip)

module _ ⦃r : Runtime⦄ (resolve : Bytes → Outcome (Option Resolution))
    (handshake : Bytes → ℤ → Bytes → Handshake) (parse : Bytes → Option Certificate) where
  -- A server can only be verified against a declared certificate.
  is_verified-declared :
      (name target : Bytes) (res : Resolution)
      → is_verified resolve handshake parse name target res ≡ true
      → is_nil (pem_of res.cert) ≡ false
  unfolding is_verified verify_server_cert
  is_verified-declared name target res h = ground arith

  -- The server at the address to verify shows a certificate that agrees with the declared one.
  pub record Shows (name target : Bytes) (res : Resolution) : Type 0 where
    pub leaf : Bytes
    pub shown :
        handshake (verify_ip name target res) (https_port res.port) target ≡ connected (some leaf)
    pub agrees : (verify_cert parse (pem_of res.cert) leaf target).valid ≡ true

  verified_by-shows :
      (pem target : Bytes) (shake : Handshake)
      → verified_by resolve handshake parse pem target shake ≡ true
      → (leaf : Bytes) × (shake ≡ connected (some leaf))
        × ((verify_cert parse pem leaf target).valid ≡ true)
  verified_by-shows pem target (dial_failed e) h = cc
  verified_by-shows pem target (connected none) h = cc
  verified_by-shows pem target (connected (some leaf)) h = (leaf, refl, h)

  is_verified-Shows :
      (name target : Bytes) (res : Resolution)
      → is_verified resolve handshake parse name target res ≡ true
      → Shows name target res
  unfolding is_verified verify_server_cert
  is_verified-Shows name target res h =
      let (leaf, shown, agrees) = verified_by-shows (pem_of res.cert) target _ (ground arith) in
      record { leaf = leaf; shown = shown; agrees = agrees }

  -- An answered A query: the node resolved the name, the cache trusts the name exactly as the verdict
  -- says, a good verdict is on the certificate of the server, and the answer fits the verdict.
  pub record Settled (dnn_name : Bytes) (c' : Cache) (answer : Answer) : Type 0 where
    pub res : Resolution
    pub resolved : resolve (target_of dnn_name) ≡ done (some res)
    pub trust :
        has_declared_cert c' (target_of dnn_name)
        ≡ is_verified resolve handshake parse (plain_name dnn_name) (target_of dnn_name) res
    pub checked :
        has_declared_cert c' (target_of dnn_name) ≡ true
        → Shows (plain_name dnn_name) (target_of dnn_name) res
    pub explained :
        Explained res
          (is_verified resolve handshake parse (plain_name dnn_name) (target_of dnn_name) res)
          answer

  settle :
      {stored : Cache} (c' : Cache) (dnn_name : Bytes) (res : Resolution) {given : Answer}
      (answer : Answer)
      → resolve (target_of dnn_name) ≡ done (some res)
      → stored ≡ c'
      → some given ≡ some answer
      → has_declared_cert stored (target_of dnn_name)
        ≡ is_verified resolve handshake parse (plain_name dnn_name) (target_of dnn_name) res
      → Explained res
          (is_verified resolve handshake parse (plain_name dnn_name) (target_of dnn_name) res)
          given
      → Settled dnn_name c' answer
  settle c' dnn_name res answer e f g t x =
      let trust : has_declared_cert c' (target_of dnn_name)
          ≡ is_verified resolve handshake parse (plain_name dnn_name) (target_of dnn_name) res =
        subst
          (λ s.
            has_declared_cert s (target_of dnn_name)
            ≡ is_verified resolve handshake parse (plain_name dnn_name) (target_of dnn_name) res)
          f t in
      record {
        res = res;
        resolved = e;
        trust = trust;
        checked =
            λ h. is_verified-Shows (plain_name dnn_name) (target_of dnn_name) res (sym trust ∙ h);
        explained = subst (Explained res _) (some_inj.0 g) x;
      }

  follow-Settled :
      (c c' : Cache) (dnn_name : Bytes) (res : Resolution) (answer : Answer) (way : Route)
      → resolve (target_of dnn_name) ≡ done (some res)
      → route res
          (is_verified resolve handshake parse (plain_name dnn_name) (target_of dnn_name) res)
        ≡ way
      → follow c
          (target_of dnn_name)
          res
          (is_verified resolve handshake parse (plain_name dnn_name) (target_of dnn_name) res)
          way
        ≡ (c', some answer)
      → Settled dnn_name c' answer
  follow-Settled c c' dnn_name res answer (transport ip) e w h =
      settle c' dnn_name res answer e (ap (λ (p : Cache × Option Answer). p.0) h)
        (ap (λ (p : Cache × Option Answer). p.1) h)
        (remember-trust c (target_of dnn_name) res _ []
          (is_verified-declared (plain_name dnn_name) (target_of dnn_name) res))
        (let t = route-transport res _ ip w in to_transport t.0 t.1)
  follow-Settled c c' dnn_name res answer (direct ip) e w h =
      let t = route-direct res _ ip w in
      settle c' dnn_name res answer e (ap (λ (p : Cache × Option Answer). p.0) h)
        (ap (λ (p : Cache × Option Answer). p.1) h)
        (remember-trust c (target_of dnn_name) res false (codes "cert verification failed")
            (λ f. cc)
          ∙ sym t.0)
        (to_server t.0 t.1)
  follow-Settled c c' dnn_name res answer proxied e w h =
      let t = route-proxied res _ w in
      settle c' dnn_name res answer e (ap (λ (p : Cache × Option Answer). p.0) h)
        (ap (λ (p : Cache × Option Answer). p.1) h)
        (remember-trust c (target_of dnn_name) res true []
            (λ f. is_verified-declared (plain_name dnn_name) (target_of dnn_name) res t)
          ∙ sym t)
        (to_proxy t)
  follow-Settled c c' dnn_name res answer nowhere e w h =
      cc (ap (λ (p : Cache × Option Answer). p.1) h)

  handled :
      (c c' : Cache) (dnn_name : Bytes) (answer : Answer) (found : Outcome (Option Resolution))
      → resolve (target_of dnn_name) ≡ found
      → (found >>= λ o.
          done (
            answer_resolved resolve handshake parse c (plain_name dnn_name) (target_of dnn_name) o))
        ≡ done (c', some answer)
      → Settled dnn_name c' answer
  handled c c' dnn_name answer panic e h = cc
  handled c c' dnn_name answer (done none) e h =
      cc (ap (λ (p : Cache × Option Answer). p.1) (done-injective h))
  handled c c' dnn_name answer (done (some res)) e h =
      follow-Settled c c' dnn_name res answer _ e refl (done-injective h)

  -- When an A query is answered, the node has resolved the name, and the cache trusts the name exactly
  -- when `is_verified` holds, which needs that the server at `verify_ip` showed a certificate that agrees
  -- with the declared one; `verify_ip` is the subdomain's address where the node knows one, and else the
  -- resolution's. The answer is the proxy only if the verdict is good, and the resolution's address, for
  -- a subdomain too, only if it is not; or it is the address of a transport, where the resolution has one.
  pub handle_a-Settled :
      (c c' : Cache) (dnn_name : Bytes) (answer : Answer)
      → handle_a resolve handshake parse c dnn_name ≡ done (c', some answer)
      → Settled dnn_name c' answer
  unfolding handle_a
  handle_a-Settled c c' dnn_name answer h =
      handled c c' dnn_name answer (resolve (target_of dnn_name)) refl h
