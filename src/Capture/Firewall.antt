-- ===== src/Capture/Firewall.antt =====
-- internal/capture/capture_linux.go: the rules of the firewall. The OUTPUT chain of the table nat is a
-- list of rules; whether a command succeeds is an argument, and one that fails changes nothing.
use dnn_daemon.Common.{
  ℕ, ◌≡◌, refl, Bool, true, false, not, ◌&&◌, List, [], ◌∷◌, ◌++◌, ◌==◌, if◌then◌else◌, arith,
  append_assoc,
}

-- The two rules of the daemon, by the user and by the port; and those of others.
pub data Rule : Type 0 where
  return_own redirect other : ℕ → Rule

abbrev pub same_rule : Rule → Rule → Bool
same_rule (return_own u) (return_own v) = u == v
same_rule (redirect p) (redirect q) = p == q
same_rule (other m) (other n) = m == n
same_rule _ _ = false

abbrev pub local_port : ℕ
local_port = 15353

pub record Capture : Type 0 where
  pub running : Bool
  pub iptables_set : Bool
  pub chain : List Rule

-- `iptables -A` and `iptables -D`, which takes the first rule that is the same.
abbrev pub append_rule : Rule → List Rule → List Rule
append_rule rule chain = chain ++ rule ∷ []

unfoldable pub delete_rule : Rule → List Rule → List Rule
delete_rule rule [] = []
delete_rule rule (x ∷ chain) =
    let rest = delete_rule rule chain in if same_rule x rule then chain else x ∷ rest

-- Whether each command succeeds, in the order of the calls.
pub record Commands : Type 0 where
  pub adds_return : Bool
  pub adds_redirect : Bool
  pub undoes_return : Bool
  pub deletes_redirect : Bool
  pub deletes_return : Bool

-- The capture afterwards, and whether there is no error.
unfoldable pub setup_iptables : Commands → ℕ → Capture → Capture × Bool
unfolding delete_rule
setup_iptables run uid c =
    let added = append_rule (return_own uid) c.chain in
    let undone = if run.undoes_return then delete_rule (return_own uid) added else added in
    if not run.adds_return
    then (c, false)
    else if not run.adds_redirect
    then (record c { chain = undone }, false)
    else (record c { iptables_set = true; chain = append_rule (redirect local_port) added }, true)

unfoldable pub remove_iptables : Commands → ℕ → Capture → Capture
unfolding delete_rule
remove_iptables run uid c =
    let left =
      if run.deletes_redirect then delete_rule (redirect local_port) c.chain else c.chain in
    if not c.iptables_set then c else record c {
      iptables_set = false;
      chain = if run.deletes_return then delete_rule (return_own uid) left else left;
    }

-- `startDNSServer` starts a goroutine, and returns no error.
unfoldable pub start : Commands → ℕ → Capture → Capture × Bool
unfolding setup_iptables
start run uid c =
    if c.running then (c, true) else setup_iptables run uid (record c { running = true })

unfoldable pub stop : Commands → ℕ → Capture → Capture
unfolding remove_iptables
stop run uid c = remove_iptables run uid (record c { running = false })

-- The commands that take rules away succeed.
abbrev pub Deletes : Commands → Type 0
Deletes run =
    (run.undoes_return ≡ true) × (run.deletes_redirect ≡ true) × (run.deletes_return ≡ true)

-- Starts and stops by one user, where rules can always be taken away, but perhaps not added.
pub data Reachable (uid : ℕ) (base : List Rule) : Capture → Type 0 where
  initial : Reachable uid base (record { running = false; iptables_set = false; chain = base })
  started :
      {c c' : Capture}
      → (run : Commands) → Deletes run
      → Reachable uid base c
      → c' ≡ (start run uid c).0
      → Reachable uid base c'
  stopped :
      {c c' : Capture}
      → (run : Commands) → Deletes run
      → Reachable uid base c
      → c' ≡ stop run uid c
      → Reachable uid base c'

abbrev pub lacks : Rule → List Rule → Bool
lacks rule [] = true
lacks rule (x ∷ chain) = not (same_rule x rule) && lacks rule chain

-- The chain is as before, and with the redirect, if that is set, its two rules behind.
pub record IsClean (uid : ℕ) (base : List Rule) (c : Capture) : Type 0 where
  pub set_running : c.iptables_set ≡ true → c.running ≡ true
  pub rules :
      c.chain
      ≡ (if c.iptables_set then base ++ (return_own uid ∷ redirect local_port ∷ []) else base)

delete_last :
    (rule : Rule) (base : List Rule)
    → same_rule rule rule ≡ true
    → lacks rule base ≡ true
    → delete_rule rule (base ++ rule ∷ []) ≡ base
unfolding delete_rule
delete_last rule [] s h = rw s
delete_last rule (x ∷ base) s h = ground (arith, delete_last rule base s)

same_return : (uid : ℕ) → same_rule (return_own uid) (return_own uid) ≡ true
same_return uid = ground arith

delete_both :
    (uid : ℕ) (base : List Rule)
    → lacks (return_own uid) base ≡ true
    → lacks (redirect local_port) base ≡ true
    → delete_rule
        (return_own uid)
        (delete_rule (redirect local_port) (base ++ (return_own uid ∷ redirect local_port ∷ [])))
      ≡ base
unfolding delete_rule
delete_both uid [] h k = ground arith
delete_both uid (x ∷ base) h k = ground (arith, delete_both uid base)

start-IsClean :
    (uid : ℕ) (base : List Rule) (run : Commands) (c : Capture)
    → lacks (return_own uid) base ≡ true
    → Deletes run
    → IsClean uid base c
    → IsClean uid base (start run uid c).0
unfolding start
start-IsClean uid base run c h d i = record {
  set_running = λ e. ground (arith, i.set_running, i.rules);
  rules = ground (
    arith,
    i.set_running,
    i.rules,
    delete_last (return_own uid) base (same_return uid) h,
    append_assoc base (return_own uid ∷ []) (redirect local_port ∷ []),
  );
}

stop-IsClean :
    (uid : ℕ) (base : List Rule) (run : Commands) (c : Capture)
    → lacks (return_own uid) base ≡ true
    → lacks (redirect local_port) base ≡ true
    → Deletes run
    → IsClean uid base c
    → IsClean uid base (stop run uid c)
unfolding stop
stop-IsClean uid base run c h k d i = record {
  set_running = λ e. ground (arith, i.set_running, i.rules);
  rules = ground (arith, i.set_running, i.rules, delete_both uid base h k);
}

-- After any starts and stops, with commands that may fail to add rules, the chain of the firewall is as
-- it was at first, with the two rules of the daemon behind it while the redirect is set and without them
-- else; and the redirect is only set while the capture runs. At first the chain had neither rule.
pub Reachable-IsClean :
    (uid : ℕ) (base : List Rule) {c : Capture}
    → lacks (return_own uid) base ≡ true
    → lacks (redirect local_port) base ≡ true
    → Reachable uid base c
    → IsClean uid base c
Reachable-IsClean uid base h k initial = record { set_running = λ e. cc; rules = refl }
Reachable-IsClean uid base h k (started run d reached e) =
    rw e (start-IsClean uid base run _ h d (Reachable-IsClean uid base h k reached))
Reachable-IsClean uid base h k (stopped run d reached e) =
    rw e (stop-IsClean uid base run _ h k d (Reachable-IsClean uid base h k reached))

-- A start that fails to add the first rule leaves the capture running, so that every later start reports
-- success and adds no rule, until it is stopped.
start_failed :
    (run again : Commands) (uid : ℕ) (c : Capture)
    → c.running ≡ false
    → run.adds_return ≡ false
    → ((start run uid c).1 ≡ false)
      × (start again uid (start run uid c).0 ≡ ((start run uid c).0, true))
      × ((start run uid c).0.chain ≡ c.chain)
unfolding start
start_failed run again uid c h k = (ground arith, rw (h, k), ground arith)
