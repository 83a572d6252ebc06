-- ===== src/Mapper.antt =====
-- internal/mapper/ipv6.go: addresses of DNN names, and the cache of names, addresses and resolutions.
-- The cache's maps hold pointers to resolutions, and `SetCertVerified` writes through one; no reader
-- keeps a pointer for the fields that are written, so a resolution is a value here.
pub mod Address
pub mod Ops
pub mod Index
pub mod Trust
use dnn_daemon.Common.{
  ℕ, ◌≡◌, Bool, true, false, not, ◌&&◌, ◌||◌, Option, none, some, List, [], ◌∷◌, ◌++◌, ltb, leb,
  ◌==◌, if◌then◌else◌, length, take, drop, is_nil,
}
use dnn_daemon.Common.Bytes.{Bytes, codes}
use dnn_daemon.Common.Int.{ℤ}
use dnn_daemon.Common.Table.{Table, lookup, insert}
use dnn_daemon.Net.{to16}
use dnn_daemon.Runtime.{Runtime}
use dnn_daemon.Text.{to_lower, trim_space, has_prefix, after_first}

pub record Resolution : Type 0 where
  pub ip : Bytes
  pub port : ℤ
  pub declared_cert_pem : Bytes
  pub cert_verified : Bool
  pub cert_checked : Bool
  pub cert_error : Bytes
  pub npubs : List Bytes
  -- `none` is the nil map
  pub subdomain_ips : Option (Table Bytes)
  pub relay : List Bytes
  pub tollgate : Bytes
  pub tor : List Bytes
  pub interception_ipv6 : Bytes

pub record Cache : Type 0 where
  pub ip_to_name : Table Bytes
  pub name_to_ip : Table Bytes
  pub resolutions : Table Resolution

abbrev pub new_cache : Cache
new_cache = record { ip_to_name = []; name_to_ip = []; resolutions = [] }

-- The literal that `RegisterWithIPAndSubdomains` stores: every field left out is zero.
abbrev pub fresh_resolution : Bytes → ℤ → Bytes → Option (Table Bytes) → Resolution
fresh_resolution ip port pem subdomains = record {
  ip = ip;
  port = port;
  declared_cert_pem = pem;
  cert_verified = false;
  cert_checked = false;
  cert_error = [];
  npubs = [];
  subdomain_ips = subdomains;
  relay = [];
  tollgate = [];
  tor = [];
  interception_ipv6 = [];
}

-- The tests on a resolution that `HasDeclaredCert` and `IsCertValidForDomain` share.
unfoldable pub is_trusted : Resolution → Bool
is_trusted res =
    if is_nil res.declared_cert_pem
    then false
    else if res.cert_checked && not res.cert_verified
    then false
    else true

unfoldable pub trusts : Option Resolution → Bool
unfolding is_trusted
trusts none = false
trusts (some res) = is_trusted res

-- What `SetCertVerified` writes.
abbrev pub checked : Bool → Bytes → Resolution → Resolution
checked verified cert_error res = record res {
  cert_checked = true;
  cert_verified = verified;
  cert_error = cert_error;
}

abbrev pub set_checked : Cache → Bytes → Bool → Bytes → Option Resolution → Cache
set_checked c name verified cert_error none = c
set_checked c name verified cert_error (some res) = record c {
  resolutions = insert name (checked verified cert_error res) c.resolutions;
}

abbrev starts_with_fd : Option Bytes → Bool
starts_with_fd none = false
starts_with_fd (some []) = false
starts_with_fd (some (b ∷ _)) = b == 0xfd

unfoldable pub is_dnn_address : Bytes → Bool
unfolding to16
is_dnn_address ip = starts_with_fd (if ltb (length ip) 16 then to16 ip else some ip)

-- `none` is `ErrInvalidNpub`.
unfoldable pub parse_npub : Bytes → Option Bytes
unfolding has_prefix
parse_npub npub =
    if has_prefix npub (codes "npub1") && length npub == 63
    then some npub
    else if is_nil npub
    then none
    else some npub

module _ ⦃r : Runtime⦄ where
  unfoldable pub normalize : Bytes → Bytes
  normalize name = to_lower (trim_space name)

  unfoldable pub npub_to_ipv6 : Bytes → Bytes
  npub_to_ipv6 dnn_name = 0xfd ∷ take 15 (r.sum256 (normalize dnn_name))

  unfoldable pub register : Cache → Bytes → Cache × Bytes
  register c dnn_name =
      let name = normalize dnn_name in
      let ip = npub_to_ipv6 name in
      (
        record c {
          ip_to_name = insert (r.ip_string ip) name c.ip_to_name;
          name_to_ip = insert name ip c.name_to_ip;
        },
        ip,
      )

  unfoldable pub lookup_by_ip : Cache → Bytes → Option Bytes
  lookup_by_ip c ip = lookup (r.ip_string ip) c.ip_to_name

  unfoldable pub lookup_by_name : Cache → Bytes → Option Bytes
  lookup_by_name c dnn_name = lookup (normalize dnn_name) c.name_to_ip

  unfoldable pub register_with_ip_and_subdomains :
      Cache → Bytes → Bytes → ℤ → Bytes → Option (Table Bytes) → Cache
  register_with_ip_and_subdomains c dnn_name ip port pem subdomains = record c {
    resolutions =
        insert (normalize dnn_name) (fresh_resolution ip port pem subdomains) c.resolutions;
  }

  unfoldable pub register_with_ip : Cache → Bytes → Bytes → ℤ → Bytes → Cache
  unfolding register_with_ip_and_subdomains
  register_with_ip c dnn_name ip port pem =
      register_with_ip_and_subdomains c dnn_name ip port pem none

  unfoldable pub get_resolution : Cache → Bytes → Option Resolution
  get_resolution c dnn_name = lookup (normalize dnn_name) c.resolutions

  unfoldable pub has_declared_cert : Cache → Bytes → Bool
  has_declared_cert c dnn_name = trusts (get_resolution c dnn_name)

  unfoldable pub set_cert_verified : Cache → Bytes → Bool → Bytes → Cache
  set_cert_verified c dnn_name verified cert_error =
      let name = normalize dnn_name in
      set_checked c name verified cert_error (lookup name c.resolutions)

  abbrev ips_of : Option Resolution → Table Bytes
  ips_of none = []
  ips_of (some res) = elim res.subdomain_ips [ none ↦ [] | some ips ↦ ips ]

  unfoldable pub get_subdomain_ip : Cache → Bytes → Bytes → Option Bytes
  get_subdomain_ip c dnn_name subdomain =
      lookup (normalize subdomain) (ips_of (lookup (normalize dnn_name) c.resolutions))

  unfoldable pub format_ipv6 : Option Bytes → Bytes
  format_ipv6 none = []
  format_ipv6 (some ip) = r.ip_string ip

abbrev parent_entry : Cache → Option Bytes → Option Bytes
parent_entry c none = none
parent_entry c (some parent) = elim (lookup parent c.resolutions) [
  | none ↦ none
  | some _ ↦ some parent
]

-- `none` is the empty string that the source returns when it finds no parent.
unfoldable pub find_parent_domain : Cache → Bytes → Option Bytes
unfolding after_first
find_parent_domain c full_domain = elim (lookup full_domain c.resolutions) [
  | some _ ↦ some full_domain
  | none ↦ parent_entry c (after_first full_domain b'.')
]

abbrev pub trusts_parent : Cache → Option Bytes → Bool
trusts_parent c none = false
trusts_parent c (some parent) =
    if is_nil parent then false else trusts (lookup parent c.resolutions)

module _ ⦃r : Runtime⦄ where
  unfoldable pub is_cert_valid_for_domain : Cache → Bytes → Bool
  is_cert_valid_for_domain c full_domain =
      trusts_parent c (find_parent_domain c (normalize full_domain))
