-- ===== src/DnsConfig/Restored.antt =====
-- internal/dnsconfig/windows.go: RestoreDNS after calls of SetDNS and EnsureDNS.
use dnn_daemon.Common.{
  ◌||◌, Bool, ◌≡◌, Bool, ◌||◌, Option, none, some, List, [], ◌∷◌, map, if◌then◌else◌,
}
use dnn_daemon.Common.Bytes.{Bytes, equal, Distinct}
use dnn_daemon.DnsConfig.{InterfaceConfig}
use dnn_daemon.DnsConfig.Saved.{named, names}
use dnn_daemon.DnsConfig.Merge.{Visits, entries_of, or_else}
use dnn_daemon.DnsConfig.Settings.{
  Command, set_interface_dns, set_interface_dhcp, reset_all_daemon_dns, File, written, Up,
  needs_config, set_dns, ensure_dns, restore_interface,
}

-- A call of SetDNS or of EnsureDNS, by the interfaces that are up then.
pub data Event : Type 0 where
  set_event ensure_event : List InterfaceConfig → Event

unfoldable wanting : Bytes → List InterfaceConfig → List InterfaceConfig
wanting local_dns [] = []
wanting local_dns (iface ∷ interfaces) =
    let rest = wanting local_dns interfaces in
    if needs_config local_dns iface then iface ∷ rest else rest

-- The settings that an event finds for an interface.
unfoldable found : Bytes → Bytes → Event → Option InterfaceConfig
found local_dns name (set_event interfaces) = named name interfaces
found local_dns name (ensure_event interfaces) = named name (wanting local_dns interfaces)

unfoldable pub first_found : Bytes → Bytes → List Event → Option InterfaceConfig
unfolding found wanting
first_found local_dns name [] = none
first_found local_dns name (e ∷ events) =
    or_else (found local_dns name e) (first_found local_dns name events)

-- Windows gives no two adapters one name.
abbrev pub HasNames : List Event → Type 0
HasNames [] = Unit {0}
HasNames (set_event interfaces ∷ events) = Distinct (names interfaces) × HasNames events
HasNames (ensure_event interfaces ∷ events) = HasNames events

abbrev target : Command → Bytes
target (set_interface_dns name dns) = name
target (set_interface_dhcp name) = name
target reset_all_daemon_dns = []

-- The commands that concern one interface: those that name it, and those that go over all adapters.
unfoldable pub about : Bytes → List Command → List Command
about name [] = []
about name (reset_all_daemon_dns ∷ cs) = reset_all_daemon_dns ∷ about name cs
about name (set_interface_dns n dns ∷ cs) =
    let rest = about name cs in if equal n name then set_interface_dns n dns ∷ rest else rest
about name (set_interface_dhcp n ∷ cs) =
    let rest = about name cs in if equal n name then set_interface_dhcp n ∷ rest else rest

abbrev pub restoring : List Bytes → Option InterfaceConfig → List Command
restoring adapters none = []
restoring adapters (some iface) = restore_interface adapters iface

module _ (visit : List InterfaceConfig → List InterfaceConfig) (visits : Visits visit)
    (local_dns : Bytes) (succeeds : Bytes → Bool) where
  abbrev up : InterfaceConfig → Up
  up iface = record { iface = iface; write = written; succeeds = succeeds iface.name }

  unfoldable step : File → Event → File
  step file (set_event interfaces) = (set_dns visit local_dns (some interfaces) written file).0
  step file (ensure_event interfaces) =
      (ensure_dns visit local_dns (some (map up interfaces)) file).file

  unfoldable pub run : File → List Event → File
  unfolding step
  run file [] = file
  run file (e ∷ events) = run (step file e) events

  -- The saved settings are those that were found first.
  abbrev Kept : Bytes → File → File → Option InterfaceConfig → Type 0
  Kept name file file' new =
      (named name (entries_of file') ≡ or_else (named name (entries_of file)) new)
      × Distinct (names (entries_of file'))
