-- ===== src/Service/Setup.antt =====
-- internal/service/windows.go: InstallService with the authority that it makes, and UninstallService, by what succeeds. Warnings, and
-- the steps that only warn, are not modelled apart from those for the authority.
use dnn_daemon.Common.{ℕ, ◌==◌, ltb, Bool, not, Option, none, some, if◌then◌else◌}
use dnn_daemon.Common.Bytes.{Bytes}
use dnn_daemon.Authority.{Ca, Disk, Saving, save, exists}

pub data Copy : Type 0 where
  copied source_missing copy_failed : Copy

-- The service of this name that the manager has, and whether one that is stopped can be deleted.
pub data Found : Type 0 where
  no_service is_running : Found
  is_stopped : (deletes : Bool) → Found

pub record WindowsHost : Type 0 where
  pub makes_directory : Bool
  pub config_exists : Bool
  -- whether a path is given that is not the target's
  pub source_given : Bool
  pub copy : Copy
  pub creates_default : Bool
  pub connects : Bool
  pub found : Found
  pub creates_service : Bool

pub data SetupResult : Type 0 where
  installed no_config_directory no_default_config config_not_copied no_manager : SetupResult
  not_deleted already_running service_not_created : SetupResult

abbrev created : Bool → SetupResult → SetupResult
created creates_default next = if creates_default then next else no_default_config

abbrev after_copy : Copy → Bool → SetupResult → SetupResult
after_copy copied creates_default next = next
after_copy source_missing creates_default next = created creates_default next
after_copy copy_failed creates_default next = config_not_copied

abbrev with_config : WindowsHost → SetupResult → SetupResult
with_config h next =
    if h.config_exists
    then next
    else if h.source_given
    then after_copy h.copy h.creates_default next
    else created h.creates_default next

abbrev replace_service : Found → SetupResult → SetupResult
replace_service no_service next = next
replace_service is_running next = already_running
replace_service (is_stopped deletes) next = if deletes then next else not_deleted

unfoldable pub install_service : WindowsHost → SetupResult
install_service h =
    if not h.makes_directory
    then no_config_directory
    else with_config h (
        if not h.connects
        then no_manager
        else replace_service h.found (if h.creates_service then installed else service_not_created))

-- The files of an authority are removed when both are there.
unfoldable pub remove_old : Disk → Disk
unfolding exists
remove_old d = if exists d then record { cert = none; key = none } else d

abbrev imported : Bool → Disk × Bool → Disk × Option Bytes
imported imports (d, ok) = (d, if imports then d.cert else none)

-- The files after the installation, and the file that the store imports, by what Generate makes, how far
-- Save comes and whether the import succeeds. An error of Save is only a warning.
unfoldable pub set_up_authority : Option Ca → Saving → Bool → Disk → Disk × Option Bytes
unfolding remove_old save
set_up_authority none saving imports d = (remove_old d, none)
set_up_authority (some ca) saving imports d = imported imports (save saving ca (remove_old d))

-- What UninstallService finds: the query of the service gives the number of its process, or an error.
pub record Removal : Type 0 where
  pub connects : Bool
  pub opens : Bool
  pub process : Option ℕ
  pub own_process : ℕ
  pub deletes : Bool

pub data RemoveResult : Type 0 where
  removed not_connected not_found not_removed : RemoveResult

-- The process that is killed; 0 is none.
abbrev killed : ℕ → Option ℕ → Option ℕ
killed own none = none
killed own (some pid) = if ltb 0 pid then (if not (pid == own) then some pid else none) else none

pub record Uninstalled : Type 0 where
  pub disk : Disk
  pub kills : Option ℕ
  pub result : RemoveResult

-- The files of the authority are removed first. The waits change only when the steps are taken.
unfoldable pub uninstall_service : Removal → Disk → Uninstalled
unfolding remove_old
uninstall_service m d =
    if not m.connects
    then record { disk = remove_old d; kills = none; result = not_connected }
    else if not m.opens
    then record { disk = remove_old d; kills = none; result = not_found }
    else record {
      disk = remove_old d;
      kills = killed m.own_process m.process;
      result = if m.deletes then removed else not_removed;
    }
