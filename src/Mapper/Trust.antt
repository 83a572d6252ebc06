-- ===== src/Mapper/Trust.antt =====
-- Which domains the cache vouches for: the certificate verdicts over sequences of calls.
use dnn_daemon.Common.{
  ◌≡◌, ◌≢◌, refl, ap, ◌∙◌, inl, inr, Bool, true, false, [], ◌∷◌, if◌then◌else◌, any, is_nil,
  Option-cases, inl, inr, ne→is_nil, arith, Bool-cases, Option-cases, ◌&&◌, not, ◌↔◌, List, Option,
  none, some,
}
use dnn_daemon.Common.Bytes.{Bytes, equal, equal→eq}
use dnn_daemon.Common.Int.{ℤ}
use dnn_daemon.Common.Table.{Table, lookup, lookup-insert, lookup-insert_self}
use dnn_daemon.Runtime.{Runtime}
use dnn_daemon.Text.{after_first}
use dnn_daemon.Mapper.{
  Resolution, Cache, fresh_resolution, is_trusted, checked, trusts, normalize, register,
  register_with_ip_and_subdomains, register_with_ip, get_resolution, has_declared_cert, set_checked,
  set_cert_verified, get_subdomain_ip, find_parent_domain, trusts_parent, is_cert_valid_for_domain,
}
use dnn_daemon.Mapper.Ops.{Op, add_name, add_resolution, add_verdict, apply, run}

abbrev pub declares_cert : Option Resolution → Bool
declares_cert none = false
declares_cert (some res) = not (is_nil res.declared_cert_pem)

trusts-if :
    (b : Bool) (res : Resolution) (o : Option Resolution)
    → trusts (if b then some res else o) ≡ (if b then is_trusted res else trusts o)
unfolding trusts
trusts-if true res o = refl
trusts-if false res o = refl

is_trusted-fresh :
    (ip : Bytes) (port : ℤ) (pem : Bytes) (subdomains : Option (Table Bytes))
    → is_trusted (fresh_resolution ip port pem subdomains) ≡ not (is_nil pem)
unfolding is_trusted
is_trusted-fresh ip port pem subdomains = ground arith

is_trusted-checked :
    (verified : Bool) (cert_error : Bytes) (res : Resolution)
    → is_trusted (checked verified cert_error res) ≡ (declares_cert (some res) && verified)
unfolding is_trusted
is_trusted-checked verified cert_error res = ground arith

trusts-set_checked :
    (c : Cache) (name other : Bytes) (verified : Bool) (cert_error : Bytes) (o : Option Resolution)
    → lookup name c.resolutions ≡ o
    → trusts (lookup other (set_checked c name verified cert_error o).resolutions) ≡ (
        if equal name other
        then declares_cert o && verified
        else trusts (lookup other c.resolutions))
trusts-set_checked c name other verified cert_error none h = elim (Bool-cases (equal name other)) [
  | inl same ↦ rw same (rw (equal→eq name other same) at (ap trusts h) ∙ unfold trusts in refl)
  | inr differ ↦ rw differ
]
trusts-set_checked c name other verified cert_error (some res) h = rw (
  lookup-insert name other (checked verified cert_error res) c.resolutions,
  trusts-if,
  is_trusted-checked verified cert_error res,
)

module _ ⦃r : Runtime⦄ where
  has_declared_cert-store :
      (c : Cache) (name ip : Bytes) (port : ℤ) (pem : Bytes) (subdomains : Option (Table Bytes))
      (other : Bytes)
      → has_declared_cert (register_with_ip_and_subdomains c name ip port pem subdomains) other ≡ (
          if equal (normalize name) (normalize other)
          then not (is_nil pem)
          else has_declared_cert c other)
  unfolding has_declared_cert register_with_ip_and_subdomains get_resolution
  has_declared_cert-store c name ip port pem subdomains other = rw (
    lookup-insert (normalize name) (normalize other) (fresh_resolution ip port pem subdomains)
        c.resolutions,
    trusts-if,
    is_trusted-fresh ip port pem subdomains,
  )

  pub declares_cert-register :
      (c : Cache) (name ip : Bytes) (port : ℤ) (pem : Bytes)
      → declares_cert (get_resolution (register_with_ip c name ip port pem) name) ≡ not (is_nil pem)
  unfolding register_with_ip register_with_ip_and_subdomains get_resolution
  declares_cert-register c name ip port pem =
      ap declares_cert
        (lookup-insert_self (normalize name) (fresh_resolution ip port pem none) c.resolutions)

  -- Storing a resolution makes the name trusted exactly when it declares a certificate, whatever was
  -- found out about it before; other names are not affected.
  pub has_declared_cert-register :
      (c : Cache) (name ip : Bytes) (port : ℤ) (pem other : Bytes)
      → has_declared_cert (register_with_ip c name ip port pem) other ≡ (
          if equal (normalize name) (normalize other)
          then not (is_nil pem)
          else has_declared_cert c other)
  unfolding register_with_ip
  has_declared_cert-register c name ip port pem other =
      has_declared_cert-store c name ip port pem none other

  -- A verdict on a stored name makes it trusted exactly when it declares a certificate and the
  -- verdict is good; a verdict on a name that is not stored changes nothing, nor does any verdict
  -- change another name.
  pub has_declared_cert-set_cert_verified :
      (c : Cache) (name : Bytes) (verified : Bool) (cert_error other : Bytes)
      → has_declared_cert (set_cert_verified c name verified cert_error) other ≡ (
          if equal (normalize name) (normalize other)
          then declares_cert (get_resolution c name) && verified
          else has_declared_cert c other)
  unfolding has_declared_cert set_cert_verified get_resolution
  has_declared_cert-set_cert_verified c name verified cert_error other =
      trusts-set_checked c (normalize name) (normalize other) verified cert_error
        (lookup (normalize name) c.resolutions) refl

  -- The calls after which a name that is not trusted may be trusted.
  abbrev pub may_restore : Bytes → Op → Bool
  may_restore name (add_name _) = false
  may_restore name (add_resolution other ip port pem subdomains) =
      equal (normalize other) (normalize name)
  may_restore name (add_verdict other verified cert_error) =
      equal (normalize other) (normalize name) && verified

  has_declared_cert-apply :
      (name : Bytes) (c : Cache) (op : Op)
      → may_restore name op ≡ false
      → has_declared_cert c name ≡ false
      → has_declared_cert (apply c op) name ≡ false
  unfolding apply
  has_declared_cert-apply name c (add_name other) h k =
      unfold register has_declared_cert get_resolution in k
  has_declared_cert-apply name c (add_resolution other ip port pem subdomains) h k =
      ground (arith, has_declared_cert-store c other ip port pem subdomains name)
  has_declared_cert-apply name c (add_verdict other verified cert_error) h k =
      ground (arith, has_declared_cert-set_cert_verified c other verified cert_error name)

  -- A name that is not trusted stays so through every sequence of calls that neither store a
  -- resolution for it nor give it a good verdict.
  pub untrusted_stays :
      (name : Bytes) (ops : List Op) (c : Cache)
      → any (may_restore name) ops ≡ false
      → has_declared_cert c name ≡ false
      → has_declared_cert (run c ops) name ≡ false
  unfolding run
  untrusted_stays name [] c h k = k
  untrusted_stays name (op ∷ ops) c h k =
      untrusted_stays name ops (apply c op) (ground arith)
        (has_declared_cert-apply name c op (ground arith) k)

  -- The subdomain addresses that can be read back are the ones stored with the resolution: none,
  -- where it was stored by `RegisterWithIP`.
  get_subdomain_ip-register :
      (c : Cache) (name ip : Bytes) (port : ℤ) (pem subdomain : Bytes) (ips : Table Bytes)
      → (get_subdomain_ip
            (register_with_ip_and_subdomains c name ip port pem (some ips))
            name
            subdomain
          ≡ lookup (normalize subdomain) ips)
        × (get_subdomain_ip (register_with_ip c name ip port pem) name subdomain ≡ none)
  unfolding get_subdomain_ip register_with_ip
  get_subdomain_ip-register c name ip port pem subdomain ips =
      (rw lookup-insert_self, rw lookup-insert_self (unfold lookup in refl))

-- A certificate is declared, and a check of it, if there was one, succeeded.
abbrev pub IsTrusted : Resolution → Type 0
IsTrusted res = (res.declared_cert_pem ≢ []) × (res.cert_checked ≡ true → res.cert_verified ≡ true)

IsTrusted-sound : (res : Resolution) → is_trusted res ≡ true → IsTrusted res
unfolding is_trusted
IsTrusted-sound res h = (ground arith, λ e. ground arith)

IsTrusted-complete : (res : Resolution) → IsTrusted res → is_trusted res ≡ true
unfolding is_trusted
IsTrusted-complete res h = ground (arith, ne→is_nil res.declared_cert_pem h.0, h.1)

-- Why the cache vouches for a full domain name, in its normal form: by an entry of its own, or, where
-- it has none, by an entry of the name without its first label.
pub data Vouches (c : Cache) (domain : Bytes) : Type 0 where
  exact :
      (res : Resolution)
      → domain ≢ []
      → lookup domain c.resolutions ≡ some res
      → IsTrusted res
      → Vouches c domain
  parent :
      (p : Bytes) (res : Resolution)
      → lookup domain c.resolutions ≡ none
      → after_first domain b'.' ≡ some p
      → p ≢ []
      → lookup p c.resolutions ≡ some res
      → IsTrusted res
      → Vouches c domain

Vouches-sound :
    (c : Cache) (domain : Bytes)
    → trusts_parent c (find_parent_domain c domain) ≡ true
    → Vouches c domain
unfolding find_parent_domain trusts
Vouches-sound c domain h = elim (Option-cases (lookup domain c.resolutions)) [
  | inr (res, e) ↦ exact res (ground arith) e (IsTrusted-sound res (ground arith))
  | inl e ↦ elim (Option-cases (after_first domain b'.')) [
    | inl f ↦ ground arith
    | inr (p, f) ↦ elim (Option-cases (lookup p c.resolutions)) [
      | inl g ↦ ground arith
      | inr (res, g) ↦ parent p res e f (ground arith) g (IsTrusted-sound res (ground arith))
    ]
  ]
]

Vouches-complete :
    (c : Cache) (domain : Bytes)
    → Vouches c domain
    → trusts_parent c (find_parent_domain c domain) ≡ true
unfolding find_parent_domain trusts
Vouches-complete c domain (exact res ne e t) =
    ground (arith, ne→is_nil domain ne, IsTrusted-complete res t)
Vouches-complete c domain (parent p res e f ne g t) =
    ground (arith, ne→is_nil p ne, IsTrusted-complete res t)

module _ ⦃r : Runtime⦄ where
  -- A full domain is trusted exactly when its own entry in the cache, or, where it has none, that of its
  -- parent, one label up, declares a certificate whose check, if there was one, succeeded: the nearer
  -- entry decides alone. The names that the certificate is for play no part.
  pub is_cert_valid_for_domain_iff :
      (c : Cache) (full_domain : Bytes)
      → (is_cert_valid_for_domain c full_domain ≡ true) ↔ Vouches c (normalize full_domain)
  unfolding is_cert_valid_for_domain
  is_cert_valid_for_domain_iff c full_domain =
      (Vouches-sound c (normalize full_domain), Vouches-complete c (normalize full_domain))
