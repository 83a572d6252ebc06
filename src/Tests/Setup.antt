-- ===== src/Tests/Setup.antt =====
-- The settings of Windows, the authority, the dialogs, and the parts put together.
use dnn_daemon.Common.{◌≡◌, refl, Bool, true, false, Option, none, some, List, [], ◌∷◌, ◌++◌, inr}
use dnn_daemon.Common.Bytes.{Bytes, codes}
use dnn_daemon.DnsConfig.{InterfaceConfig}
use dnn_daemon.DnsConfig.Merge.{Visits}
use dnn_daemon.DnsConfig.Settings.{Command}
use dnn_daemon.DnsConfig.Restored.{Event, set_event, ensure_event}
use dnn_daemon.DnsConfig.Restored
use dnn_daemon.Authority.{
  Ca, Disk, Formats, IsEncoded, got, saved, no_directory, load, loaded, exists, load_or_generate,
  load_or_generate_kept,
}
use dnn_daemon.Service.Linux.{Host, install_ca}
use dnn_daemon.Service.Setup.{set_up_authority}
use dnn_daemon.Service.Trust.{CanTrust, install_ca_trusted}
use dnn_daemon.Service.Dialogs.{join, show_node_config_dialog, zenity, kdialog, terminal}
use dnn_daemon.Service.Nodes.{line_feed, show_node_config_dialog-join}
use dnn_daemon.Service.Windows.{
  execute, runs, runs-execute, node_updates, interrogate, stop_request, Steps,
}
use dnn_daemon.Config.{default_config}
use dnn_daemon.PeerDiscovery.{Network}
use dnn_daemon.Main.Wiring.{refresh, tick, start, IsWired, run-start, run}
use dnn_daemon.Text.{is_space}
use dnn_daemon.Tests.Sample.{sample_runtime}

abbrev in_order : List InterfaceConfig → List InterfaceConfig
in_order entries = entries

abbrev in_order-Visits : Visits in_order
in_order-Visits = record { same = λ name entries d. refl; once = λ entries d. d }

abbrev local_dns : Bytes
local_dns = codes "127.0.0.1"

abbrev with_dns : List Bytes → InterfaceConfig
with_dns dns = record { name = codes "Wi-Fi"; dns = dns; was_dhcp = false }

abbrev events : List Event
events =
    set_event (with_dns (codes "192.0.2.1" ∷ codes "192.0.2.2" ∷ []) ∷ [])
    ∷ ensure_event (with_dns (local_dns ∷ []) ∷ [])
    ∷ ensure_event (with_dns (codes "192.0.2.9" ∷ []) ∷ [])
    ∷ []

abbrev all_work : Command → Bool
all_work c = true

abbrev all_succeed : Bytes → Bool
all_succeed name = true

-- A block is what follows a first byte.
abbrev decode : Bytes → Option Bytes
decode [] = none
decode (c ∷ s) = some s

abbrev formats : Formats
formats = record { decode = decode; parse_certificate = λ s. some s; parse_key = λ s. some s }

abbrev authority : Ca
authority = record {
  certificate = codes "cert";
  private_key = codes "key";
  cert_pem = codes "-cert";
  key_pem = codes "-key";
}

abbrev authority-IsEncoded : IsEncoded formats authority
authority-IsEncoded = record {
  cert_bytes = codes "cert";
  key_bytes = codes "key";
  decodes_cert = refl;
  parses_cert = refl;
  decodes_key = refl;
  parses_key = refl;
}

-- A disk with a certificate and no key.
abbrev half : Disk
half = record { cert = some (codes "-old"); key = none }

abbrev whole : Disk
whole = record { cert = some (codes "-cert"); key = some (codes "-key") }

load_or_generate_kept_example :
    (load formats whole ≡ loaded authority)
    × (exists whole ≡ true)
    × (load_or_generate formats none no_directory whole ≡ (whole, got authority))
load_or_generate_kept_example =
    load_or_generate_kept formats authority saved half whole authority none no_directory
      authority-IsEncoded (unfold load_or_generate in refl)

abbrev debian : Host
debian = record {
  is_debian = true;
  is_red_hat = false;
  makes_directory = true;
  copies = true;
  updates = true;
}

abbrev debian-CanTrust : CanTrust debian
debian-CanTrust = record { directory = refl; known = refl; copying = refl }

install_ca_trusted_example :
    ((install_ca formats debian (some authority) saved whole).store ≡ some (codes "-cert"))
    × (load formats (install_ca formats debian (some authority) saved whole).disk
        ≡ loaded authority)
    × ((set_up_authority (some authority) saved true half).1 ≡ some (codes "-cert"))
    × (load formats (set_up_authority (some authority) saved true half).0 ≡ loaded authority)
install_ca_trusted_example =
    install_ca_trusted formats debian authority authority whole half debian-CanTrust
      authority-IsEncoded (inr (unfold load in refl))

-- With a certificate and no key, the old certificate is trusted and another authority signs.
half_test :
    ((install_ca formats debian (some authority) saved half).store ≡ some (codes "-old"))
    × ((load_or_generate formats
          (some authority)
          saved
          (install_ca formats debian (some authority) saved half).disk).1
        ≡ got authority)
unfolding install_ca load_or_generate
half_test = (refl, refl)

abbrev nodes : List Bytes
nodes = default_config.nodes

show_node_config_dialog-join_example :
    (show_node_config_dialog zenity nodes (some (join nodes ++ line_feed)) ≡ nodes)
    × (show_node_config_dialog kdialog nodes (some (join nodes ++ line_feed)) ≡ nodes)
    × (show_node_config_dialog zenity nodes none ≡ [])
    × (show_node_config_dialog kdialog nodes none ≡ [])
    × (show_node_config_dialog terminal nodes (some []) ≡ nodes)
    × (show_node_config_dialog terminal nodes none ≡ nodes)
show_node_config_dialog-join_example =
    show_node_config_dialog-join nodes (unfold is_space in ((refl, refl), ((refl, refl), tt)))

abbrev silent : Network
silent = record { get = λ url. none; decode_list = λ s. none; decode_object = λ s. none }

run-start_example : IsWired nodes (run (start none) (refresh silent ∷ tick ∷ []))
run-start_example = run-start none (refresh silent ∷ tick ∷ [])

abbrev no_capture : Steps
no_capture = record { makes_capture = true; starts_capture = false; loads_ca = true }

runs-execute_example :
    runs node_updates false (execute no_capture (interrogate ∷ stop_request ∷ [])) ≡ true
runs-execute_example = runs-execute node_updates no_capture (interrogate ∷ stop_request ∷ [])
