-- ===== src/DnsConfig/Saved.antt =====
-- internal/dnsconfig/windows.go: the settings of the interfaces as PowerShell prints them, and
-- mergeInterfaceConfigs. The order in which Go visits a map is a parameter.
use dnn_daemon.Common.{
  Bool, true, false, not, Option, none, some, List, [], ◌∷◌, map, if◌then◌else◌, is_nil,
}
use dnn_daemon.Common.Bytes.{Bytes, equal}
use dnn_daemon.DnsConfig.{InterfaceConfig}
use dnn_daemon.Text.{split}

-- An interface as PowerShell prints it.
pub record Printed : Type 0 where
  pub name : Bytes
  pub dns : Bytes
  pub dhcp : Bool

unfoldable pub to_config : Printed → InterfaceConfig
to_config p = record {
  name = p.name;
  dns = if not (is_nil p.dns) then split p.dns b',' else [];
  was_dhcp = p.dhcp;
}

-- What is kept for an interface.
unfoldable pub named : Bytes → List InterfaceConfig → Option InterfaceConfig
named name [] = none
named name (iface ∷ interfaces) =
    if equal iface.name name then some iface else named name interfaces

abbrev pub names : List InterfaceConfig → List Bytes
names interfaces = map (λ iface. iface.name) interfaces

abbrev pub is_there : Option InterfaceConfig → Bool
is_there none = false
is_there (some iface) = true

-- `existingMap[iface.Name] = iface`
unfoldable pub put : InterfaceConfig → List InterfaceConfig → List InterfaceConfig
put iface [] = iface ∷ []
put iface (entry ∷ entries) =
    if equal entry.name iface.name then iface ∷ entries else entry ∷ put iface entries

unfoldable pub put_all : List InterfaceConfig → List InterfaceConfig → List InterfaceConfig
unfolding put
put_all entries [] = entries
put_all entries (iface ∷ interfaces) = put_all (put iface entries) interfaces

unfoldable pub put_missing : List InterfaceConfig → List InterfaceConfig → List InterfaceConfig
unfolding put named
put_missing entries [] = entries
put_missing entries (iface ∷ interfaces) =
    put_missing (if not (is_there (named iface.name entries)) then put iface entries else entries)
      interfaces

module _ (visit : List InterfaceConfig → List InterfaceConfig) where
  unfoldable pub merge_interface_configs :
      Option (List InterfaceConfig) → List InterfaceConfig → List InterfaceConfig
  unfolding put_all put_missing
  merge_interface_configs none current = current
  merge_interface_configs (some []) current = current
  merge_interface_configs (some (iface ∷ interfaces)) current =
      visit (put_missing (put_all [] (iface ∷ interfaces)) current)
