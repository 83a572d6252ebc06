-- ===== src/Tests/Devices.antt =====
-- Devices, and the routing of DNS servers through one.
use dnn_daemon.Common.{
  ◌≡◌, refl, true, false, not, ◌&&◌, ◌||◌, Option, some, List, [], ◌∷◌, ◌++◌, any, all, is_nil,
  arith,
}
use dnn_daemon.Common.Bytes.{Bytes, codes, equal, Distinct}
use dnn_daemon.Tun.Address.{
  is_valid_ip, is_local_network_ip, split_dotted_ip, dotted, address, is_private,
  is_local_network_ip-dotted,
}
use dnn_daemon.Text.{trim_suffix, has_suffix}
use dnn_daemon.Tun.Scan.{split_lines, split_fields, trim_space, contains_string}
use dnn_daemon.Tun.Servers.{get_interface_index, get_system_dns_servers}
use dnn_daemon.Tun.Routing.{
  add_route, delete_route, public_servers, routed, setup_dns_routing, cleanup_dns_routing,
}
use dnn_daemon.Tun.Routed.{is_routable, setup_dns_routing_lem}
use dnn_daemon.Tun.Windows.{Device, Step, turn, send, shut, calls_of, Uses, calls_of-Uses}

is_local_network_ip-dotted_example :
    (is_valid_ip (dotted 172 31 0 9) ≡ true)
    × (split_dotted_ip (dotted 172 31 0 9) ≡ 172 ∷ 31 ∷ 0 ∷ 9 ∷ [])
    × (is_local_network_ip (dotted 172 31 0 9) ≡ is_private (address 172 31 0 9))
is_local_network_ip-dotted_example =
    is_local_network_ip-dotted 172 31 0 9 (omega arith) (omega arith) (omega arith) (omega arith)

private_test : is_private (address 172 31 0 9) ≡ true
private_test = refl

-- What netsh and ipconfig print, in short.
abbrev netsh : Option Bytes
netsh = some (codes "Idx  Name" ++ b'\n' ∷ codes " 50   5  connected  DNN")

abbrev ipconfig : Option Bytes
ipconfig = some (
    codes "   DNS Servers . . . : 192.168.1.1"
    ++ b'\n' ∷ (codes "        203.0.113.5" ++ b'\n' ∷ codes "   NetBIOS : Enabled"))

servers_test : get_system_dns_servers ipconfig ≡ codes "192.168.1.1" ∷ codes "203.0.113.5" ∷ []
unfolding get_system_dns_servers split_lines contains_string trim_space trim_suffix has_suffix
    is_valid_ip
servers_test = refl

index_test : get_interface_index (codes "DNN") netsh ≡ codes "50"
unfolding get_interface_index split_lines contains_string trim_suffix has_suffix split_fields
index_test = refl

setup_dns_routing_lem_example :
    (any
        (equal (add_route (get_interface_index (codes "DNN") netsh) (codes "203.0.113.5")))
        (setup_dns_routing (codes "DNN") netsh ipconfig)
      ≡ (not (is_nil (get_interface_index (codes "DNN") netsh))
          && (any (equal (codes "203.0.113.5")) public_servers
              || (any (equal (codes "203.0.113.5")) (get_system_dns_servers ipconfig)
                  && not (is_local_network_ip (codes "203.0.113.5"))))))
    × (all is_routable (routed ipconfig) ≡ true)
    × Distinct (routed ipconfig)
    × (any (equal (delete_route (codes "203.0.113.5"))) cleanup_dns_routing
        ≡ any (equal (codes "203.0.113.5")) public_servers)
setup_dns_routing_lem_example =
    setup_dns_routing_lem (codes "203.0.113.5") (codes "DNN") netsh ipconfig

abbrev device : Device
device = record { closed = false; session = 7; adapter = 9 }

abbrev steps : List Step
steps = turn 3 (some (codes "abcd")) ∷ send (codes "ef") 1 ∷ shut ∷ send (codes "gh") 1 ∷ shut ∷ []

calls_of-Uses_example : Uses 7 9 (calls_of device steps) true
calls_of-Uses_example = calls_of-Uses device steps refl (omega arith) (omega arith)
