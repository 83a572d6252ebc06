-- ===== src/DnsConfig/Settings.antt =====
-- internal/dnsconfig/windows.go: SetDNS, EnsureDNS and RestoreDNS as the commands that they run, with what
-- they leave in the file of the saved settings.
use dnn_daemon.Common.{
  Bool, true, false, not, ◌||◌, Option, none, some, List, [], ◌∷◌, ◌++◌, map, if◌then◌else◌, any,
}
use dnn_daemon.Common.Bytes.{Bytes, equal}
use dnn_daemon.DnsConfig.{InterfaceConfig}
use dnn_daemon.DnsConfig.Saved.{merge_interface_configs}

pub data Command : Type 0 where
  set_interface_dns : Bytes → Bytes → Command
  set_interface_dhcp : Bytes → Command
  reset_all_daemon_dns : Command

-- The file of the saved settings: `none` when it cannot be read.
abbrev pub File : Type 0
File = Option (List InterfaceConfig)

-- A write of the file: done, or failed, with what can be read of the file then.
pub data Write : Type 0 where
  written : Write
  not_written : File → Write

abbrev after : Write → List InterfaceConfig → File
after written interfaces = some interfaces
after (not_written file) interfaces = file

pub data SetResult : Type 0 where
  set_done : List Command → SetResult
  interfaces_failed none_active save_failed : SetResult

abbrev point : Bytes → List InterfaceConfig → List Command
point local_dns interfaces = map (λ iface. set_interface_dns iface.name local_dns) interfaces

abbrev commands : Write → List Command → SetResult
commands written cs = set_done cs
commands (not_written file) cs = save_failed

abbrev pub needs_config : Bytes → InterfaceConfig → Bool
needs_config local_dns iface = not (any (λ dns. equal dns local_dns) iface.dns)

-- An interface that is up, with the write of the file that is made for it and whether its command succeeds.
pub record Up : Type 0 where
  pub iface : InterfaceConfig
  pub write : Write
  pub succeeds : Bool

pub record Ensured : Type 0 where
  pub file : File
  pub commands : List Command
  pub changed : Bool

module _ (visit : List InterfaceConfig → List InterfaceConfig) (local_dns : Bytes) where
  unfoldable pub set_dns : Option (List InterfaceConfig) → Write → File → File × SetResult
  unfolding merge_interface_configs
  set_dns none write file = (file, interfaces_failed)
  set_dns (some []) write file = (file, none_active)
  set_dns (some (iface ∷ interfaces)) write file = (
    after write (merge_interface_configs visit file (iface ∷ interfaces)),
    commands write (point local_dns (iface ∷ interfaces)),
  )

  -- The loop of `EnsureDNS`, with the file and `changed` so far.
  unfoldable pub ensure_from : File → Bool → List Up → Ensured
  unfolding merge_interface_configs
  ensure_from file changed [] = record { file = file; commands = []; changed = changed }
  ensure_from file changed (u ∷ ups) =
      let saved = after u.write (merge_interface_configs visit file (u.iface ∷ [])) in
      let configured = ensure_from saved (changed || u.succeeds) ups in
      let skipped = ensure_from file changed ups in
      if needs_config local_dns u.iface
      then record configured {
        commands = set_interface_dns u.iface.name local_dns ∷ configured.commands;
      }
      else skipped

  unfoldable pub ensure_dns : Option (List Up) → File → Ensured
  unfolding ensure_from
  ensure_dns none file = record { file = file; commands = []; changed = false }
  ensure_dns (some ups) file = ensure_from file false ups

-- What is run for one saved interface, by the names of all adapters.
unfoldable pub restore_interface : List Bytes → InterfaceConfig → List Command
restore_interface adapters iface =
    if not (any (equal iface.name) adapters)
    then []
    else if iface.was_dhcp
    then set_interface_dhcp iface.name ∷ []
    else (elim iface.dns [ [] ↦ [] | dns ∷ others ↦ set_interface_dns iface.name dns ∷ [] ])

unfoldable pub restore_interfaces : List Bytes → List InterfaceConfig → List Command
unfolding restore_interface
restore_interfaces adapters [] = []
restore_interfaces adapters (iface ∷ interfaces) =
    restore_interface adapters iface ++ restore_interfaces adapters interfaces

pub record Restored : Type 0 where
  pub commands : List Command
  -- whether the file is removed
  pub removed : Bool
  pub failed : Bool

-- By which commands succeed.
unfoldable pub restore_dns : (Command → Bool) → List Bytes → File → Restored
unfolding restore_interfaces
restore_dns succeeds adapters none = record {
  commands = reset_all_daemon_dns ∷ [];
  removed = false;
  failed = not (succeeds reset_all_daemon_dns);
}
restore_dns succeeds adapters (some interfaces) =
    let cs = restore_interfaces adapters interfaces in
    record {
      commands = cs ++ reset_all_daemon_dns ∷ [];
      removed = true;
      failed = any (λ c. not (succeeds c)) cs;
    }
