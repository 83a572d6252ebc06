-- ===== src/Service/Darwin.antt =====
-- internal/service/service_darwin.go: the installation as the steps that it takes, and what it adds to the
-- trusted certificates.
use dnn_daemon.Common.{
  ◌≡◌, Bool, true, false, not, Option, none, some, List, [], ◌∷◌, if◌then◌else◌, arith,
}
use dnn_daemon.Common.Bytes.{Bytes}
use dnn_daemon.Service.Steps.{and_then, and_anyway}
use dnn_daemon.Authority.{Ca, Disk, Formats, got, saved, load_or_generate, load, save}

pub record KeyChain : Type 0 where
  -- the certificate that is added
  pub added : Option Bytes
  pub ok : Bool

abbrev add_trusted_cert : Bool → Option Bytes → KeyChain
add_trusted_cert adds none = record { added = none; ok = true }
add_trusted_cert adds (some cert) =
    if adds then record { added = some cert; ok = true } else record { added = none; ok = false }

-- By whether the directory is made and the command succeeds.
unfoldable pub install_ca : Bool → Bool → Disk → KeyChain
install_ca makes_directory adds d =
    if not makes_directory
    then record { added = none; ok = false }
    else add_trusted_cert adds d.cert

pub data Step : Type 0 where
  copy_binary chmod_binary write_plist run_install_ca add_route load_service : Step
  unload_service remove_plist remove_anchor delete_route uninstall_ca remove_binary : Step

-- The steps that are taken, and whether the installation succeeds.
unfoldable pub install_service : (Step → Bool) → List Step × Bool
install_service succeeds = and_then succeeds copy_binary (
    and_then succeeds chmod_binary (
      and_then succeeds write_plist (
        and_then succeeds run_install_ca
          (and_anyway add_route (and_then succeeds load_service ([], true))))))

abbrev pub uninstall_service : List Step
uninstall_service =
    unload_service ∷ remove_plist ∷ remove_anchor ∷ delete_route ∷ uninstall_ca ∷ remove_binary ∷ []

-- On a host that had no authority, an installation that succeeds adds no certificate, and the daemon signs
-- with an authority that it generates afterwards.
install_ca_untrusted :
    (f : Formats) (adds : Bool) (generated : Ca) (d : Disk)
    → d.cert ≡ none
    → ((install_ca true adds d).ok ≡ true)
      × ((install_ca true adds d).added ≡ none)
      × ((load_or_generate f (some generated) saved d).1 ≡ got generated)
unfolding install_ca load_or_generate load save
install_ca_untrusted f adds generated d e =
    (ground (arith, e), ground (arith, e), ground (arith, e))
