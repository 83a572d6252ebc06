-- ===== src/Tun/Routed.antt =====
-- Which DNS servers are routed through the device of Windows.
use dnn_daemon.Common.{
  ◌∙◌, ap, ◌≡◌, refl, true, false, not, ◌&&◌, ◌||◌, Option, List, [], ◌∷◌, ◌++◌, map, if◌then◌else◌,
  all, any, Bool, is_nil, arith, Bool-cases, inl, inr, &&-eq-true,
}
use dnn_daemon.Common.Bytes.{Bytes, equal, equal→eq, equal_iff, equal_self, Distinct}
use dnn_daemon.Text.Affixes.{equal-append_same}
use dnn_daemon.Tun.Address.{is_valid_ip, is_local_network_ip}
use dnn_daemon.Tun.Servers.{
  get_system_dns_servers_valid, get_system_dns_servers, get_interface_index,
}
use dnn_daemon.Tun.Routing.{
  public_servers, added, routed, add_route, delete_route, setup_dns_routing, cleanup_dns_routing,
}

any-append :
    (s : Bytes) (xs ys : List Bytes)
    → any (equal s) (xs ++ ys) ≡ (any (equal s) xs || any (equal s) ys)
any-append s [] ys = refl
any-append s (x ∷ xs) ys = ground (arith, any-append s xs ys)

-- Membership after one step of the loop.
abbrev kept : List Bytes → Bytes → List Bytes
kept dns_servers dns =
    if is_local_network_ip dns
    then dns_servers
    else if any (equal dns) dns_servers
    then dns_servers
    else dns_servers ++ dns ∷ []

any-kept :
    (s dns : Bytes) (dns_servers : List Bytes)
    → any (equal s) (kept dns_servers dns)
      ≡ (any (equal s) dns_servers || (equal s dns && not (is_local_network_ip s)))
any-kept s dns dns_servers = elim (Bool-cases (equal s dns)) [
  | inl e ↦
      rw (equal→eq s dns e) (ground (arith, any-append dns dns_servers (dns ∷ []), equal_self dns))
  | inr e ↦ ground (arith, any-append s dns_servers (dns ∷ []), e)
]

any-added :
    (s : Bytes) (dns_servers system : List Bytes)
    → any (equal s) (added dns_servers system)
      ≡ (any (equal s) dns_servers || (any (equal s) system && not (is_local_network_ip s)))
unfolding added
any-added s dns_servers [] = ground arith
any-added s dns_servers (dns ∷ system) =
    ground (arith, any-added s (kept dns_servers dns) system, any-kept s dns dns_servers)

equal_sym : (s t : Bytes) → equal s t ≡ equal t s
equal_sym s t = ground (arith, equal_iff s t, equal_iff t s)

Distinct-append :
    (xs : List Bytes) (s : Bytes) → Distinct xs → any (equal s) xs ≡ false → Distinct (xs ++ s ∷ [])
Distinct-append [] s h k = (refl, tt)
Distinct-append (x ∷ xs) s h k = (
  ground (arith, any-append x xs (s ∷ []), equal_sym x s, h.0, k),
  Distinct-append xs s h.1 (ground (arith, k)),
)

kept-Distinct :
    (dns : Bytes) (dns_servers : List Bytes)
    → Distinct dns_servers
    → Distinct (kept dns_servers dns)
kept-Distinct dns dns_servers h = elim (Bool-cases (is_local_network_ip dns)) [
  | inl e ↦ rw e h
  | inr e ↦ elim (Bool-cases (any (equal dns) dns_servers)) [
    | inl f ↦ rw (e, f) h
    | inr f ↦ rw (e, f) (Distinct-append dns_servers dns h f)
  ]
]

added-Distinct :
    (dns_servers system : List Bytes) → Distinct dns_servers → Distinct (added dns_servers system)
unfolding added
added-Distinct dns_servers [] h = h
added-Distinct dns_servers (dns ∷ system) h =
    added-Distinct (kept dns_servers dns) system (kept-Distinct dns dns_servers h)

-- A server that is routed: valid, and not of a local network.
abbrev pub is_routable : Bytes → Bool
is_routable dns = is_valid_ip dns && not (is_local_network_ip dns)

all-append :
    (xs : List Bytes) (dns : Bytes)
    → all is_routable xs ≡ true
    → is_routable dns ≡ true
    → all is_routable (xs ++ dns ∷ []) ≡ true
all-append [] dns h k = rw k refl
all-append (x ∷ xs) dns h k = ground (arith, h, k, all-append xs dns)

kept_routable :
    (dns : Bytes) (dns_servers : List Bytes)
    → is_valid_ip dns ≡ true
    → all is_routable dns_servers ≡ true
    → all is_routable (kept dns_servers dns) ≡ true
kept_routable dns dns_servers v h = elim (Bool-cases (is_local_network_ip dns)) [
  | inl e ↦ rw e h
  | inr e ↦ elim (Bool-cases (any (equal dns) dns_servers)) [
    | inl f ↦ rw (e, f) h
    | inr f ↦ rw (e, f) (all-append dns_servers dns h (rw (v, e) refl))
  ]
]

added_routable :
    (dns_servers system : List Bytes)
    → all is_valid_ip system ≡ true
    → all is_routable dns_servers ≡ true
    → all is_routable (added dns_servers system) ≡ true
unfolding added
added_routable dns_servers [] v h = h
added_routable dns_servers (dns ∷ system) v h =
    let (a, b) = &&-eq-true (is_valid_ip dns) (all is_valid_ip system) v in
    added_routable (kept dns_servers dns) system b (kept_routable dns dns_servers a h)

public_routable : all is_routable public_servers ≡ true
unfolding is_valid_ip is_local_network_ip
public_routable = refl

public_Distinct : Distinct public_servers
unfolding equal
public_Distinct = (refl, (refl, (refl, (refl, (refl, (refl, (refl, (refl, tt))))))))

equal-delete_route : (s t : Bytes) → equal (delete_route s) (delete_route t) ≡ equal s t
unfolding equal
equal-delete_route s t = equal-append_same s t []

equal-add_route :
    (if_index s t : Bytes) → equal (add_route if_index s) (add_route if_index t) ≡ equal s t
unfolding equal
equal-add_route if_index s t = equal-append_same s t _

any-map :
    (f : Bytes → Bytes) (s : Bytes) (xs : List Bytes)
    → ((t : Bytes) → equal (f s) (f t) ≡ equal s t)
    → any (equal (f s)) (map f xs) ≡ any (equal s) xs
any-map f s [] h = refl
any-map f s (x ∷ xs) h = cc (h x, any-map f s xs h)

any-setup :
    (s name : Bytes) (netsh ipconfig : Option Bytes)
    → any
        (equal (add_route (get_interface_index name netsh) s))
        (setup_dns_routing name netsh ipconfig)
      ≡ (not (is_nil (get_interface_index name netsh)) && any (equal s) (routed ipconfig))
unfolding setup_dns_routing
any-setup s name netsh ipconfig =
    let if_index = get_interface_index name netsh in
    elim (Bool-cases (is_nil if_index)) [
      | inl e ↦ rw e refl
      | inr e ↦ rw e (any-map (add_route if_index) s (routed ipconfig) (equal-add_route if_index s))
    ]

-- A server is routed through the device exactly when the device's interface is found and the server is
-- one of the eight public ones or is one of the system's that is in no local network; the servers to
-- route are valid addresses of no local network, and none is there twice; and the commands of
-- `cleanup_dns_routing`, which nothing in the program calls, are to delete the routes of exactly the
-- public ones.
pub setup_dns_routing_lem :
    (s name : Bytes) (netsh ipconfig : Option Bytes)
    → (any
          (equal (add_route (get_interface_index name netsh) s))
          (setup_dns_routing name netsh ipconfig)
        ≡ (not (is_nil (get_interface_index name netsh))
            && (any (equal s) public_servers
                || (any (equal s) (get_system_dns_servers ipconfig)
                    && not (is_local_network_ip s)))))
      × (all is_routable (routed ipconfig) ≡ true)
      × Distinct (routed ipconfig)
      × (any (equal (delete_route s)) cleanup_dns_routing ≡ any (equal s) public_servers)
setup_dns_routing_lem s name netsh ipconfig =
    let system = get_system_dns_servers ipconfig in
    (
      any-setup s name netsh ipconfig
          ∙ ap (λ (b : Bool). not (is_nil (get_interface_index name netsh)) && b)
              (any-added s public_servers system),
      added_routable public_servers system (get_system_dns_servers_valid ipconfig) public_routable,
      added-Distinct public_servers system public_Distinct,
      any-map delete_route s public_servers (equal-delete_route s),
    )
