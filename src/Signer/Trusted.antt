-- ===== src/Signer/Trusted.antt =====
-- Only names that the checker vouches for get certificates of the CA.
use dnn_daemon.Common.{
  ◌+◌, ◌<◌, ◌≡◌, refl, inl, inr, Bool, true, false, arith, Bool-cases, Option-cases, ltb→lt, Option,
  none, some,
}
use dnn_daemon.Common.Bytes.{Bytes, equal→eq}
use dnn_daemon.Common.Table.{Table, lookup, insert, lookup-insert}
use dnn_daemon.Runtime.{Runtime}
use dnn_daemon.Common.Table.{remove, lookup-remove}
use mathlib.Core.Path.{subst}
use dnn_daemon.Signer.{
  Signed, cert, Signer, Moment, hour, template, generate_cert, is_fresh, store_made, cached_or_made,
  get_untrusted_certificate, get_trusted_certificate, passes, get_certificate,
}

-- Each certificate of a cache is for the domain that it stands under, and signed as the cache says.
abbrev pub Holds : Bool → Table Signed → Type 0
Holds trusted table =
    (domain : Bytes) (c : Signed)
    → lookup domain table ≡ some c
    → (c.common_name ≡ domain) × (c.by_ca ≡ trusted)

-- Neither cache holds a certificate that belongs to the other.
pub record IsSorted (s : Signer) : Type 0 where
  pub cache_trusted : Holds true s.cache
  pub untrusted_self_signed : Holds false s.untrusted

-- A certificate for the domain, signed as asked, with more than an hour to go.
pub record IsServed (m : Moment) (domain : Bytes) (trusted : Bool) (c : Signed) : Type 0 where
  pub for_domain : c.common_name ≡ domain
  pub signed_as : c.by_ca ≡ trusted
  pub fresh : m.now + hour < c.not_after

insert-Holds :
    (trusted : Bool) (domain : Bytes) (c : Signed) (table : Table Signed)
    → c.common_name ≡ domain
    → c.by_ca ≡ trusted
    → Holds trusted table
    → Holds trusted (insert domain c table)
insert-Holds trusted domain c table a b h d c' k =
    ground (arith, lookup-insert domain d c table, equal→eq domain d, h d c')

remove-Holds :
    (trusted : Bool) (domain : Bytes) (table : Table Signed)
    → Holds trusted table
    → Holds trusted (remove domain table)
remove-Holds trusted domain table h d c k = ground (arith, lookup-remove domain d table, h d c)

module _ ⦃r : Runtime⦄ where
  store_made-Holds :
      (m : Moment) (trusted : Bool) (domain : Bytes) (table : Table Signed)
      → Holds trusted table
      → Holds trusted (store_made table domain (generate_cert m domain trusted)).0
  unfolding generate_cert
  store_made-Holds m trusted domain table h = elim (Option-cases m.failure) [
    | inl e ↦
        rw (e, generate_cert)
          (insert-Holds trusted domain (template m domain trusted) table refl refl h)
    | inr (why, e) ↦ rw (e, generate_cert) h
  ]

  store_made-IsServed :
      (m : Moment) (trusted : Bool) (domain : Bytes) (table : Table Signed) (c : Signed)
      → m.now + hour < m.year_later
      → (store_made table domain (generate_cert m domain trusted)).1 ≡ cert c
      → IsServed m domain trusted c
  unfolding generate_cert
  store_made-IsServed m trusted domain table c t h = elim (Option-cases m.failure) [
    | inl e ↦
        let made : c ≡ template m domain trusted = ground arith in
        rw made (record { for_domain = refl; signed_as = refl; fresh = t })
    | inr (why, e) ↦ ground arith
  ]

  cached_or_made-Holds :
      (m : Moment) (trusted : Bool) (domain : Bytes) (table : Table Signed) (held : Option Signed)
      → Holds trusted table
      → Holds trusted (cached_or_made m domain trusted table held).0
  cached_or_made-Holds m trusted domain table none h =
      unfold cached_or_made in store_made-Holds m trusted domain table h
  cached_or_made-Holds m trusted domain table (some c) h = elim (Bool-cases (is_fresh m c)) [
    | inl a ↦ unfold cached_or_made in rw a h
    | inr a ↦
        unfold cached_or_made in
        rw a (
          store_made-Holds m trusted domain (remove domain table)
            (remove-Holds trusted domain table h))
  ]

  cached_or_made-IsServed :
      (m : Moment) (trusted : Bool) (domain : Bytes) (table : Table Signed) (held : Option Signed)
      (c : Signed)
      → lookup domain table ≡ held
      → m.now + hour < m.year_later
      → Holds trusted table
      → (cached_or_made m domain trusted table held).1 ≡ cert c
      → IsServed m domain trusted c
  cached_or_made-IsServed m trusted domain table none c e t h k =
      store_made-IsServed m trusted domain table c t (unfold cached_or_made in k)
  cached_or_made-IsServed m trusted domain table (some held) c e t h k =
      elim (Bool-cases (is_fresh m held)) [
        | inl a ↦
            let same : held ≡ c = unfold cached_or_made in ground arith in
            subst (IsServed m domain trusted) same (record {
              for_domain = (h domain held e).0;
              signed_as = (h domain held e).1;
              fresh = ltb→lt (m.now + hour) held.not_after a;
            })
        | inr a ↦
            store_made-IsServed m trusted domain (remove domain table) c t
              (unfold cached_or_made in rw a at k)
      ]

  -- Both caches stay sorted, whether or not a certificate could be made.
  get_certificate-IsSorted :
      (checker : Option (Bytes → Bool)) (m : Moment) (s : Signer) (domain : Bytes)
      → IsSorted s
      → IsSorted (get_certificate checker m s domain).0
  unfolding get_certificate get_untrusted_certificate get_trusted_certificate
  get_certificate-IsSorted checker m s domain i = elim (Bool-cases (passes checker domain)) [
    | inl a ↦ rw a (record {
      cache_trusted =
          cached_or_made-Holds m true domain s.cache (lookup domain s.cache) i.cache_trusted;
      untrusted_self_signed = i.untrusted_self_signed;
    })
    | inr a ↦ rw a (record {
      cache_trusted = i.cache_trusted;
      untrusted_self_signed =
          cached_or_made-Holds m false domain s.untrusted (lookup domain s.untrusted)
            i.untrusted_self_signed;
    })
  ]

  -- With sorted caches, a certificate that is served is for the domain, has more than an hour to go,
  -- and is signed by the CA exactly when there is no checker or the checker vouches for the domain.
  pub get_certificate-IsServed :
      (checker : Option (Bytes → Bool)) (m : Moment) (s : Signer) (domain : Bytes) (c : Signed)
      → m.now + hour < m.year_later
      → IsSorted s
      → (get_certificate checker m s domain).1 ≡ cert c
      → IsServed m domain (passes checker domain) c
  unfolding get_certificate get_untrusted_certificate get_trusted_certificate
  get_certificate-IsServed checker m s domain c t i k = elim (Bool-cases (passes checker domain)) [
    | inl a ↦ rw a (
        cached_or_made-IsServed m true domain s.cache (lookup domain s.cache) c refl t
          i.cache_trusted (rw a at k))
    | inr a ↦ rw a (
        cached_or_made-IsServed m false domain s.untrusted (lookup domain s.untrusted) c refl t
          i.untrusted_self_signed (rw a at k))
  ]
