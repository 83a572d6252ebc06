-- ===== src/Capture/Darwin.antt =====
-- internal/capture/capture_darwin.go: the files of the packet filter pf. Whether a file can be read and
-- written is an argument, and one that cannot be written is left as it is; what pfctl does with the files is not
-- modelled. The DNS handler is, line by line, that of Linux.
use dnn_daemon.Common.{
  ℕ, ◌≡◌, refl, ◌⊎◌, inl, Bool, true, false, not, Option, none, some, [], ◌∷◌, ◌++◌, ◌&&◌,
  if◌then◌else◌, arith, append_assoc,
}
use dnn_daemon.Common.Bytes.{Bytes, codes}
use dnn_daemon.Common.Int.{ℤ}
use dnn_daemon.Common.Outcome.{Outcome}
use dnn_daemon.Runtime.{Runtime}
use dnn_daemon.Text.{index}
use dnn_daemon.Text.Affixes.{has_prefix-append}
use dnn_daemon.Mapper.{Cache}
use dnn_daemon.CertVerify.{Certificate, Handshake, PreflightError}
use dnn_daemon.Resolver.Answer.{Resolution}
use dnn_daemon.Stack.{Message, Response}
use dnn_daemon.Capture as Linux

-- The flags of the capture, the file of the rules, if there is one, and the file /etc/pf.conf.
pub record Capture : Type 0 where
  pub running : Bool
  pub pf_set : Bool
  pub rules : Option Bytes
  pub conf : Option Bytes

abbrev pub anchor : Bytes
anchor = codes "anchor \"dnn\""

-- What is added to /etc/pf.conf.
abbrev pub addition : Bytes
addition = codes "\nanchor \"dnn\"\nload anchor \"dnn\" from \"/etc/pf.anchors/dnn\"\n"

abbrev pub pf_rules : Bytes
pf_rules =
    codes "# DNN Daemon DNS redirect\n"
    ++ (codes "rdr pass on lo0 proto udp from any to any port 53 -> 127.0.0.1 port 5353\n"
        ++ codes "pass out quick proto udp from any to 127.0.0.1 port 5353\n")

-- A file that is not there reads as empty.
abbrev pub text_of : Option Bytes → Bytes
text_of none = []
text_of (some text) = text

abbrev is_found : Option ℕ → Bool
is_found none = false
is_found (some i) = true

-- `strings.Contains`
unfoldable pub has_text : Bytes → Bytes → Bool
unfolding index
has_text s x = is_found (index s x)

-- Which of the files can be written, and whether /etc/pf.conf, if it is there, can be read.
pub record Access : Type 0 where
  pub reads_conf : Bool
  pub writes_rules : Bool
  pub writes_conf : Bool

-- What `os.ReadFile` gives, its error dropped.
abbrev pub read_conf : Access → Capture → Bytes
read_conf run c = if run.reads_conf then text_of c.conf else []

-- The capture afterwards, and whether there is no error.
unfoldable pub setup_pf : Access → Capture → Capture × Bool
setup_pf run c =
    if not run.writes_rules
    then (c, false)
    else if has_text (read_conf run c) anchor
    then (record c { rules = some pf_rules; pf_set = true }, true)
    else if not run.writes_conf
    then (record c { rules = some pf_rules }, false)
    else (
      record c { rules = some pf_rules; conf = some (read_conf run c ++ addition); pf_set = true },
      true,
    )

unfoldable pub remove_pf : Capture → Capture
remove_pf c = if not c.pf_set then c else record c { rules = none; pf_set = false }

unfoldable pub start : Access → Capture → Capture × Bool
unfolding setup_pf
start run c = if c.running then (c, true) else setup_pf run (record c { running = true })

unfoldable pub stop : Capture → Capture
unfolding remove_pf
stop c = remove_pf (record c { running = false })

module _ ⦃r : Runtime⦄ (resolve : Bytes → Outcome (Option Resolution))
    (handshake : Bytes → ℤ → Bytes → Handshake) (parse : Bytes → Option Certificate)
    (error_text : Option PreflightError → Bytes) (exchange : Message → Option Message) where
  abbrev handle_dnn_query : Cache → Message → Bytes → ℕ → Outcome (Cache × Option Response)
  handle_dnn_query c msg name qtype =
      Linux.handle_dnn_query resolve handshake parse error_text exchange c msg name qtype

  abbrev handle_dns : Cache → Message → Outcome (Cache × Option Response)
  handle_dns c msg = Linux.handle_dns resolve handshake parse error_text exchange c msg

-- Starts and stops, from a capture that does not run, and whether each start could read /etc/pf.conf.
pub data Reachable (rules conf : Option Bytes) : Bool → Capture → Type 0 where
  initial :
      Reachable rules conf true
        (record { running = false; pf_set = false; rules = rules; conf = conf })
  started :
      {all_read : Bool} {c : Capture} {still_read : Bool} {c' : Capture}
      → (run : Access) → Reachable rules conf all_read c
      → still_read ≡ (all_read && run.reads_conf)
      → c' ≡ (start run c).0
      → Reachable rules conf still_read c'
  stopped :
      {all_read : Bool} {c c' : Capture}
      → Reachable rules conf all_read c
      → c' ≡ stop c
      → Reachable rules conf all_read c'

-- The configuration is as it was, or it has the addition once, or, only if it could not be read some
-- time, it is the addition alone; while the redirect is set, the capture runs, the rules are there and
-- the configuration names their anchor.
pub record IsLoaded (base : Option Bytes) (all_read : Bool) (c : Capture) : Type 0 where
  pub added :
      (c.conf ≡ base)
      ⊎ ((c.conf ≡ some (text_of base ++ addition))
          ⊎ ((all_read ≡ false) × (c.conf ≡ some addition)))
  pub loaded :
      c.pf_set ≡ true
      → (c.running ≡ true) × (c.rules ≡ some pf_rules) × (has_text (text_of c.conf) anchor ≡ true)

has_text-append : (s p t : Bytes) (b : ℕ) → has_text (s ++ ((b ∷ p) ++ t)) (b ∷ p) ≡ true
unfolding has_text
has_text-append [] p t b = rw (has_prefix-append (b ∷ p) t) refl
has_text-append (x ∷ s) p t b = ground (arith, has_text-append s p t b)

has_text-addition : (text : Bytes) → has_text (text ++ addition) anchor ≡ true
has_text-addition text =
    rw
      (append_assoc text (b'\n' ∷ [])
        (anchor ++ codes "\nload anchor \"dnn\" from \"/etc/pf.anchors/dnn\"\n"))
      at
      (has_text-append (text ++ (b'\n' ∷ [])) (codes "nchor \"dnn\"")
        (codes "\nload anchor \"dnn\" from \"/etc/pf.anchors/dnn\"\n") b'a')

nil_has_text : has_text [] anchor ≡ false
unfolding has_text index
nil_has_text = refl

start-IsLoaded :
    (base : Option Bytes) (all_read : Bool) (run : Access) (c : Capture)
    → IsLoaded base all_read c
    → IsLoaded base (all_read && run.reads_conf) (start run c).0
unfolding start
start-IsLoaded base all_read run c i = record {
  added =
      ground (arith, i.added, has_text-addition (text_of base), has_text-addition [], nil_has_text);
  loaded = λ e.
      ground
        (arith, i.loaded, has_text-addition (text_of c.conf), has_text-addition [], nil_has_text);
}

stop-IsLoaded :
    (base : Option Bytes) (all_read : Bool) (c : Capture)
    → IsLoaded base all_read c
    → IsLoaded base all_read (stop c)
unfolding stop
stop-IsLoaded base all_read c i = record {
  added = ground (arith, i.added);
  loaded = λ e. ground (arith, i.loaded);
}

-- After any starts and stops, with files that may fail to be written, /etc/pf.conf is as it was at first
-- or has the lines of the daemon behind that, once, or else some start could not read it and it is these
-- lines alone; and while the redirect is set, the capture runs, the file of rules is there, and
-- /etc/pf.conf names its anchor.
pub Reachable-IsLoaded :
    (rules conf : Option Bytes) {all_read : Bool} {c : Capture}
    → Reachable rules conf all_read c
    → IsLoaded conf all_read c
Reachable-IsLoaded rules conf initial = record { added = inl refl; loaded = λ e. cc }
Reachable-IsLoaded rules conf (started run reached r e) =
    rw (r, e) (start-IsLoaded conf _ run _ (Reachable-IsLoaded rules conf reached))
Reachable-IsLoaded rules conf (stopped reached e) =
    rw e (stop-IsLoaded conf _ _ (Reachable-IsLoaded rules conf reached))
