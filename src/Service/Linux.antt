-- ===== src/Service/Linux.antt =====
-- internal/service/service_linux.go: the installation as the steps that it takes, by which of them succeed,
-- with what it does to the files of the authority and to the system's store of trusted certificates.
use dnn_daemon.Common.{
  Bool, true, false, not, ◌&&◌, Option, none, some, List, [], ◌∷◌, ◌++◌, if◌then◌else◌, is_nil, leb,
  length, get_or, ◌==◌,
}
use dnn_daemon.Common.Bytes.{Bytes, codes, equal}
use dnn_daemon.Service.Steps.{and_then, and_anyway}
use dnn_daemon.Authority.{
  Ca, Disk, Formats, Saving, Result, got, not_generated, not_saved, load_or_generate,
}

-- The files that decide what is done, and what of the system can fail.
pub record Host : Type 0 where
  pub is_debian : Bool
  pub is_red_hat : Bool
  -- whether the directory is made, the certificate copied, and the store updated
  pub makes_directory : Bool
  pub copies : Bool
  pub updates : Bool

pub record Installed : Type 0 where
  pub disk : Disk
  -- the file that this installation puts among the trusted certificates
  pub store : Option Bytes
  pub ok : Bool

abbrev absent : Option Bytes → Bool
absent none = true
absent (some file) = false

abbrev pub copied : Bool → Option Bytes → Option Bytes
copied copies none = none
copied copies (some cert) = if copies then some cert else none

abbrev pub to_store : Host → Disk → Installed
to_store h d =
    if h.is_debian
    then record { disk = d; store = copied h.copies d.cert; ok = h.updates }
    else if h.is_red_hat
    then record { disk = d; store = copied h.copies d.cert; ok = h.updates }
    else record { disk = d; store = none; ok = true }

abbrev made : Host → Disk × Result → Installed
made h (d, got ca) = to_store h d
made h (d, not_generated) = record { disk = d; store = none; ok = false }
made h (d, not_saved) = record { disk = d; store = none; ok = false }

unfoldable pub install_ca : Formats → Host → Option Ca → Saving → Disk → Installed
unfolding load_or_generate
install_ca f h generated saving d =
    if not h.makes_directory
    then record { disk = d; store = none; ok = false }
    else if absent d.cert && absent d.key
    then made h (load_or_generate f generated saving d)
    else to_store h d

-- The steps of an installation and of its end.
pub data Step : Type 0 where
  copy_binary chmod_binary write_service_file run_install_ca install_nss_cert : Step
  add_route daemon_reload enable_service start_service : Step
  stop_service disable_service remove_service_file delete_route : Step
  uninstall_ca uninstall_nss_cert remove_binary : Step

-- The steps that are taken, and whether the installation succeeds: most errors end it.
unfoldable pub install_service : (Step → Bool) → List Step × Bool
install_service succeeds = and_then succeeds copy_binary (
    and_then succeeds chmod_binary (
      and_then succeeds write_service_file (
        and_then succeeds run_install_ca (
          and_anyway install_nss_cert (
            and_anyway add_route (
              and_then succeeds daemon_reload (
                and_then succeeds enable_service (and_then succeeds start_service ([], true)))))))))

abbrev pub uninstall_service : List Step
uninstall_service =
    stop_service ∷ disable_service ∷ remove_service_file ∷ daemon_reload ∷ delete_route
    ∷ uninstall_ca ∷ uninstall_nss_cert ∷ remove_binary ∷ []

-- `splitColon`, by the field so far; the text is that of a line of the password file.
unfoldable pub fields_from : Bytes → Bytes → List Bytes
fields_from current [] = if is_nil current then [] else current ∷ []
fields_from current (c ∷ s) =
    let rest = fields_from (if c == b':' then [] else current ++ c ∷ []) s in
    if c == b':'
    then current ∷ rest
    else if c == b'\n'
    then (if is_nil current then [] else current ∷ [])
    else rest

unfoldable pub split_colon : Bytes → List Bytes
unfolding fields_from
split_colon s = fields_from [] s

abbrev home_of : Bytes → Option Bytes → Bytes × Bytes
home_of user none = (user, codes "/home/" ++ user)
home_of user (some out) =
    if leb 6 (length (split_colon out))
    then (user, get_or (split_colon out) 5 [])
    else (user, codes "/home/" ++ user)

-- By SUDO_USER and what getent prints for it.
unfoldable pub get_real_user : Bytes → Option Bytes → Bytes × Bytes
unfolding split_colon equal
get_real_user user out =
    if is_nil user
    then ([], [])
    else if equal user (codes "root")
    then ([], [])
    else home_of user out
