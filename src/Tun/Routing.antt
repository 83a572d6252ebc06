-- ===== src/Tun/Routing.antt =====
-- internal/tun/tun_windows.go: setupDNSRouting, cleanupDNSRouting and runRouteCommand, as the command lines
-- that they run, by what netsh and ipconfig print. A command that fails is only logged.
use dnn_daemon.Common.{Option, List, [], ◌∷◌, ◌++◌, map, if◌then◌else◌, any, is_nil}
use dnn_daemon.Common.Bytes.{Bytes, codes, equal}
use dnn_daemon.Tun.Address.{is_local_network_ip}
use dnn_daemon.Tun.Servers.{get_system_dns_servers, get_interface_index}

abbrev joined : List Bytes → Bytes
joined [] = []
joined (arg ∷ args) = b' ' ∷ (arg ++ joined args)

abbrev pub run_route_command : List Bytes → Bytes
run_route_command args = codes "cmd.exe /C route" ++ joined args

abbrev pub public_servers : List Bytes
public_servers =
    codes "8.8.8.8"
    ∷ codes "8.8.4.4"
    ∷ codes "1.1.1.1"
    ∷ codes "1.0.0.1"
    ∷ codes "9.9.9.9"
    ∷ codes "149.112.112.112"
    ∷ codes "208.67.222.222"
    ∷ codes "208.67.220.220"
    ∷ []

-- The loop over the system's servers, with the list so far.
unfoldable pub added : List Bytes → List Bytes → List Bytes
added dns_servers [] = dns_servers
added dns_servers (dns ∷ system) =
    added
      (if is_local_network_ip dns
        then dns_servers
        else if any (equal dns) dns_servers
        then dns_servers
        else dns_servers ++ dns ∷ [])
      system

abbrev pub routed : Option Bytes → List Bytes
routed ipconfig = added public_servers (get_system_dns_servers ipconfig)

abbrev pub add_route : Bytes → Bytes → Bytes
add_route if_index dns = run_route_command (
    codes "ADD"
    ∷ dns
    ∷ codes "MASK"
    ∷ codes "255.255.255.255"
    ∷ codes "0.0.0.0"
    ∷ codes "IF"
    ∷ if_index
    ∷ [])

abbrev pub delete_route : Bytes → Bytes
delete_route dns = run_route_command (codes "DELETE" ∷ dns ∷ [])

unfoldable pub setup_dns_routing : Bytes → Option Bytes → Option Bytes → List Bytes
unfolding added
setup_dns_routing name netsh ipconfig =
    let if_index = get_interface_index name netsh in
    if is_nil if_index then [] else map (add_route if_index) (routed ipconfig)

abbrev pub cleanup_dns_routing : List Bytes
cleanup_dns_routing = map delete_route public_servers
