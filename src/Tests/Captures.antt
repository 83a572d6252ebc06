-- ===== src/Tests/Captures.antt =====
-- The proxy and the capture at concrete names.
use dnn_daemon.Common.{◌≡◌, refl, true, false, Option, none, some, [], ◌∷◌}
use dnn_daemon.Common.Bytes.{Bytes, codes}
use dnn_daemon.Common.Int.{pos}
use dnn_daemon.Mapper.{Cache, new_cache, register_with_ip}
use dnn_daemon.CertVerify.{PreflightError}
use dnn_daemon.Stack.{Message}
use dnn_daemon.HttpsProxy.{Conn, names_of, locate}
use dnn_daemon.Capture.Darwin as Darwin
use dnn_daemon.Capture.Darwin.{IsLoaded, Reachable-IsLoaded}
use dnn_daemon.Capture as Capture
use dnn_daemon.Capture.Firewall
use dnn_daemon.Capture.Firewall.{
  Rule, return_own, redirect, other, Commands, start, stop, Reachable, initial, started, stopped,
  IsClean, Reachable-IsClean,
}
use dnn_daemon.Tests.Queries.{site}
use dnn_daemon.Tests.Sample.{sample_runtime, opened_names}

three_parts :
    names_of (codes "blossom.Freak.nabandonzooa") ≡ (codes "blossom", codes "freak.nabandonzooa")
three_parts = unfold names_of locate opened_names in refl

two_parts : names_of (codes "Freak.nabandonzooa") ≡ ([], codes "Freak.nabandonzooa")
two_parts = unfold names_of locate opened_names in refl

abbrev upstream : Conn
upstream = record { id = 1; leaf = some (codes "CERT") }

abbrev dial : Bytes → Bytes → Option Conn
dial addr server_name = some upstream

abbrev filled : Cache
filled = register_with_ip new_cache site (codes "192.0.2.7") (pos 443) (codes "CERT")

abbrev no_text : Option PreflightError → Bytes
no_text e = []

abbrev no_exchange : Message → Option Message
no_exchange msg = none

abbrev no_message : Message
no_message = record { questions = []; rest = [] }

abbrev works : Commands
works = record {
  adds_return = true;
  adds_redirect = true;
  undoes_return = true;
  deletes_redirect = true;
  deletes_return = true;
}

abbrev idle : Firewall.Capture
idle = record { running = false; iptables_set = false; chain = other 7 ∷ [] }

Reachable-IsClean_example : IsClean 0 (other 7 ∷ []) (stop works 0 (start works 0 idle).0)
Reachable-IsClean_example =
    Reachable-IsClean 0 (other 7 ∷ []) refl refl
      (stopped works (refl, refl, refl) (started works (refl, refl, refl) initial refl) refl)

abbrev pf_conf : Option Bytes
pf_conf = some (codes "set skip on lo0\n")

abbrev writable : Darwin.Access
writable = record { reads_conf = true; writes_rules = true; writes_conf = true }

abbrev unreadable : Darwin.Access
unreadable = record { reads_conf = false; writes_rules = true; writes_conf = true }

abbrev before : Darwin.Capture
before = record { running = false; pf_set = false; rules = none; conf = pf_conf }

Reachable-IsLoaded_example :
    IsLoaded pf_conf false
      (Darwin.start unreadable (Darwin.stop (Darwin.start writable before).0)).0
Reachable-IsLoaded_example = Reachable-IsLoaded none pf_conf (
    Darwin.started unreadable
      (Darwin.stopped (Darwin.started writable Darwin.initial refl refl) refl) refl refl)
