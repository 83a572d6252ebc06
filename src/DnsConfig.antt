-- ===== src/DnsConfig.antt =====
-- internal/dnsconfig/windows.go: the upstream servers that are read from the saved configuration, or from
-- the output of PowerShell, where `none` is an error. The commands themselves are not modelled.
pub mod Saved
pub mod Merge
pub mod Settings
pub mod Restored
use dnn_daemon.Common.{
  ◌≡◌, ◌∙◌, sym, ap, refl, Bool, true, false, not, ◌&&◌, ◌||◌, Option, none, some, List, [], ◌∷◌,
  ◌++◌, if◌then◌else◌, is_nil, any, arith, Bool-cases, inl, inr,
}
use dnn_daemon.Common.Bytes.{Bytes, codes, equal, equal_self, equal→eq, Distinct}
use dnn_daemon.Runtime.{Runtime}
use dnn_daemon.Text.{trim_space, split}
use dnn_daemon.Text.Affixes.{equal-append_same}

pub record InterfaceConfig : Type 0 where
  pub name : Bytes
  pub dns : List Bytes
  pub was_dhcp : Bool

abbrev pub local_address : Bytes
local_address = codes "127.0.0.1"

abbrev pub with_port : Bytes → Bytes
with_port dns = dns ++ codes ":53"

abbrev pub default_upstreams : List Bytes
default_upstreams = codes "1.1.1.1:53" ∷ codes "9.9.9.9:53" ∷ []

abbrev pub servers_of : List InterfaceConfig → List Bytes
servers_of [] = []
servers_of (iface ∷ interfaces) = iface.dns ++ servers_of interfaces

abbrev pub or_default : List Bytes → List Bytes
or_default upstreams = if not (is_nil upstreams) then upstreams else default_upstreams

-- Whether a server is taken, by what has been seen.
abbrev pub fresh : List Bytes → Bytes → Bool
fresh seen dns = not (is_nil dns) && not (equal dns local_address) && not (any (equal dns) seen)

module _ ⦃r : Runtime⦄ where
  -- The loops of `GetOriginalUpstreams`, with what has been seen.
  unfoldable pub unseen : List Bytes → List Bytes → List Bytes
  unseen seen [] = []
  unseen seen (server ∷ servers) =
      let dns = trim_space server in
      let kept = unseen (dns ∷ seen) servers in
      let skipped = unseen seen servers in if fresh seen dns then with_port dns ∷ kept else skipped

  abbrev original : Option (List InterfaceConfig) → List Bytes
  original none = default_upstreams
  original (some interfaces) = or_default (unseen [] (servers_of interfaces))

  -- By the interfaces of the saved configuration.
  unfoldable pub get_original_upstreams : Option (List InterfaceConfig) → List Bytes
  unfolding unseen
  get_original_upstreams saved = original saved

  unfoldable pub usable : List Bytes → List Bytes
  usable [] = []
  usable (line ∷ lines) =
      let rest = usable lines in
      if not (is_nil (trim_space line)) && not (equal (trim_space line) local_address)
      then with_port (trim_space line) ∷ rest
      else rest

  abbrev current : Option Bytes → List Bytes
  current none = default_upstreams
  current (some output) = or_default (usable (split output b'\n'))

  -- By the output of the command.
  unfoldable pub get_current_upstreams : Option Bytes → List Bytes
  unfolding usable
  get_current_upstreams output = current output

  with_port_differs : (x y : Bytes) → equal x y ≡ false → equal (with_port x) (with_port y) ≡ false
  with_port_differs x y h = rw (equal-append_same x y (codes ":53")) h

  fresh-differs :
      (seen : List Bytes) (dns x : Bytes)
      → fresh seen dns ≡ true
      → (any (equal x) seen || equal x local_address) ≡ true
      → equal x dns ≡ false
  fresh-differs seen dns x k h = elim (Bool-cases (equal x dns)) [
    | inl e ↦
        let bad : (any (equal dns) seen || equal dns local_address) ≡ true =
          rw (equal→eq x dns e) at h in
        ground (arith, bad, k)
    | inr e ↦ e
  ]

  barred :
      (seen servers : List Bytes) (x : Bytes)
      → (any (equal x) seen || equal x local_address) ≡ true
      → any (equal (with_port x)) (unseen seen servers) ≡ false
  unfolding unseen
  barred seen [] x h = refl
  barred seen (server ∷ servers) x h =
      let dns = trim_space server in
      elim (Bool-cases (fresh seen dns)) [
        | inl k ↦ rw k (
            ground (
              arith,
              with_port_differs x dns (fresh-differs seen dns x k h),
              barred (dns ∷ seen) servers x (ground (arith, h)),
            ))
        | inr k ↦ rw k (barred seen servers x h)
      ]

  unseen-Distinct : (seen servers : List Bytes) → Distinct (unseen seen servers)
  unfolding unseen
  unseen-Distinct seen [] = tt
  unseen-Distinct seen (server ∷ servers) =
      let dns = trim_space server in
      elim (Bool-cases (fresh seen dns)) [
        | inl k ↦ rw k (
          barred (dns ∷ seen) servers dns (rw (equal_self dns) refl),
          unseen-Distinct (dns ∷ seen) servers,
        )
        | inr k ↦ rw k (unseen-Distinct seen servers)
      ]

  usable-local : (lines : List Bytes) → any (equal (with_port local_address)) (usable lines) ≡ false
  unfolding usable
  usable-local [] = refl
  usable-local (line ∷ lines) =
      let dns = trim_space line in
      elim (Bool-cases (equal local_address dns)) [
        | inl a ↦
            let own : equal dns local_address ≡ true =
              ap (λ (d : Bytes). equal d local_address) (sym (equal→eq local_address dns a))
              ∙ equal_self local_address in
            ground (arith, own, usable-local lines)
        | inr a ↦ ground (arith, with_port_differs local_address dns a, usable-local lines)
      ]

  -- A list of servers that can be asked: not empty, and without the daemon's own address.
  abbrev pub CanAsk : List Bytes → Type 0
  CanAsk upstreams =
      (is_nil upstreams ≡ false) × (any (equal (with_port local_address)) upstreams ≡ false)

  default-CanAsk : CanAsk default_upstreams
  unfolding equal
  default-CanAsk = (refl, refl)

  default-Distinct : Distinct default_upstreams
  unfolding equal
  default-Distinct = (refl, (refl, tt))

  original_lem :
      (servers : List Bytes)
      → CanAsk (or_default (unseen [] servers)) × Distinct (or_default (unseen [] servers))
  original_lem servers = elim (Bool-cases (is_nil (unseen [] servers))) [
    | inl a ↦ rw a (default-CanAsk, default-Distinct)
    | inr a ↦ rw a (
      (a, barred [] servers local_address (rw (equal_self local_address) refl)),
      unseen-Distinct [] servers,
    )
  ]

  current_lem : (lines : List Bytes) → CanAsk (or_default (usable lines))
  current_lem lines = elim (Bool-cases (is_nil (usable lines))) [
    | inl a ↦ rw a default-CanAsk
    | inr a ↦ rw a (a, usable-local lines)
  ]

  -- The upstream servers, those of the saved configuration and the current ones, are never none and do
  -- not have the daemon's own address; and no server of the saved configuration is listed twice.
  pub upstreams-CanAsk :
      (saved : Option (List InterfaceConfig)) (output : Option Bytes)
      → CanAsk (get_original_upstreams saved)
        × Distinct (get_original_upstreams saved)
        × CanAsk (get_current_upstreams output)
  unfolding get_original_upstreams get_current_upstreams
  upstreams-CanAsk none none = (default-CanAsk, default-Distinct, default-CanAsk)
  upstreams-CanAsk (some interfaces) none =
      let (can, distinct) = original_lem (servers_of interfaces) in (can, distinct, default-CanAsk)
  upstreams-CanAsk none (some output) =
      (default-CanAsk, default-Distinct, current_lem (split output b'\n'))
  upstreams-CanAsk (some interfaces) (some output) =
      let (can, distinct) = original_lem (servers_of interfaces) in
      (can, distinct, current_lem (split output b'\n'))
