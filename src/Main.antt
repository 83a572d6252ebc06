-- ===== src/Main.antt =====
-- cmd/dnn-daemon/main.go: what the program does, by its flags and what it finds out about its host, and the
-- interactive installation.
pub mod Wiring
use dnn_daemon.Common.{
  ℕ, ◌≡◌, refl, Bool, true, false, not, ◌&&◌, ◌||◌, Option, none, some, List, [], ◌∷◌,
  if◌then◌else◌, is_nil, arith,
}
use dnn_daemon.Common.Bytes.{Bytes, equal, equal_self}
use dnn_daemon.Config.{Config, default_config}
use dnn_daemon.Service.Dialogs.{Action, action_cancel, action_install, action_uninstall}

pub data System : Type 0 where
  windows linux darwin other : System

abbrev pub is_windows : System → Bool
is_windows windows = true
is_windows _ = false

-- Linux or macOS
abbrev pub is_unix : System → Bool
is_unix linux = true
is_unix darwin = true
is_unix _ = false

pub record Flags : Type 0 where
  pub version : Bool
  pub install_service : Bool
  pub remove_service : Bool
  pub run_as_service : Bool
  pub debug_mode : Bool
  pub config_path : Bytes

pub record Host : Type 0 where
  pub system : System
  pub is_windows_service : Bool
  pub is_admin : Bool
  pub default_path : Bytes

pub data Run : Type 0 where
  print_version interactive ask_for_sudo request_elevation uninstall : Run
  install run_service run_foreground : Bytes → Run

abbrev elevated : Host → Run → Run
elevated h run =
    if not h.is_admin then (if is_unix h.system then ask_for_sudo else request_elevation) else run

abbrev cfg_path : Host → Flags → Bytes
cfg_path h f = if is_nil f.config_path then h.default_path else f.config_path

abbrev no_flag : Flags → Bool
no_flag f =
    not f.install_service
    && not f.remove_service
    && not f.run_as_service
    && not f.debug_mode
    && is_nil f.config_path

unfoldable pub main : Host → Flags → Run
main h f =
    if f.version
    then print_version
    else if no_flag f && ((is_windows h.system && not h.is_windows_service) || is_unix h.system)
    then interactive
    else if f.install_service
    then elevated h (install (cfg_path h f))
    else if f.remove_service
    then elevated h uninstall
    else if is_windows h.system && (f.run_as_service || h.is_windows_service)
    then run_service (cfg_path h f)
    else run_foreground (cfg_path h f)

pub data Effect : Type 0 where
  elevation_requested : Effect
  config_saved : Config → Effect
  service_installed service_uninstalled : Effect
  error_shown success_shown uninstall_success_shown : Effect

-- What the steps of the interactive installation give: the action chosen, the nodes entered, and which of
-- the rest succeeds.
pub record Answers : Type 0 where
  pub is_admin : Bool
  pub action : Action
  pub node_list : List Bytes
  pub makes_directory : Bool
  pub finds_executable : Bool
  pub installs : Bool
  pub uninstalls : Bool

abbrev save_nodes : Answers → List Effect → List Effect
save_nodes a rest =
    if a.makes_directory
    then config_saved (record default_config { nodes = a.node_list }) ∷ rest
    else rest

abbrev perform_install : Answers → List Effect
perform_install a =
    if not a.finds_executable
    then error_shown ∷ []
    else if not a.installs
    then error_shown ∷ []
    else service_installed ∷ success_shown ∷ []

abbrev act : Answers → Action → List Effect
act a action_install = if is_nil a.node_list then [] else save_nodes a (perform_install a)
act a action_uninstall =
    if not a.uninstalls
    then error_shown ∷ []
    else service_uninstalled ∷ uninstall_success_shown ∷ []
act a action_cancel = []

unfoldable pub handle_interactive_install : Answers → List Effect
handle_interactive_install a = if not a.is_admin then elevation_requested ∷ [] else act a a.action

-- When each way to run is taken, and with which file.
unfoldable pub allowed : Host → Flags → Run → Bool
unfolding equal
allowed h f print_version = f.version
allowed h f interactive =
    no_flag f && (is_unix h.system || (is_windows h.system && not h.is_windows_service))
allowed h f ask_for_sudo =
    not h.is_admin && is_unix h.system && (f.install_service || f.remove_service)
allowed h f request_elevation =
    not h.is_admin && not (is_unix h.system) && (f.install_service || f.remove_service)
allowed h f (install path) = h.is_admin && f.install_service && equal path (cfg_path h f)
allowed h f uninstall = h.is_admin && f.remove_service && not f.install_service
allowed h f (run_service path) =
    is_windows h.system
    && (f.run_as_service || h.is_windows_service)
    && not (f.install_service || f.remove_service)
    && equal path (cfg_path h f)
allowed h f (run_foreground path) =
    not (is_windows h.system && (f.run_as_service || h.is_windows_service))
    && not (is_unix h.system && no_flag f)
    && not (f.version || f.install_service || f.remove_service)
    && equal path (cfg_path h f)

-- The service is installed or removed only with the rights of an administrator and when a flag asks for it;
-- without them, sudo is asked for on Linux and macOS and an elevation elsewhere. The program is a service
-- only on Windows; it runs in the foreground only when none of this was asked for, and never without a flag
-- on Linux and macOS. The file of the flag is used, or the default one when it is empty.
main-allowed : (h : Host) (f : Flags) → allowed h f (main h f) ≡ true
unfolding main allowed
main-allowed h f = ground (arith, equal_self (cfg_path h f))
