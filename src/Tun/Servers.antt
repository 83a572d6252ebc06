-- ===== src/Tun/Servers.antt =====
-- internal/tun/tun_windows.go: getSystemDNSServers and getInterfaceIndex, by what the command that they run
-- prints: `none` when it could not be run.
use dnn_daemon.Common.{
  ◌+◌, ℕ, ◌≡◌, refl, Bool, true, false, not, ◌&&◌, ◌||◌, Option, none, some, List, [], ◌∷◌, ◌==◌,
  if◌then◌else◌, take, drop, all, is_nil, get_or, arith, Bool-cases, inl, inr,
}
use dnn_daemon.Common.Bytes.{Bytes, codes}
use dnn_daemon.Tun.Scan.{split_fields, split_lines, trim_space, index_string, contains_string}
use dnn_daemon.Tun.Address.{is_valid_ip}

abbrev accepted : Bytes → List Bytes → List Bytes
accepted ip servers = if is_valid_ip ip then ip ∷ servers else servers

abbrev after_colon : Option ℕ → Bytes → List Bytes → List Bytes
after_colon none line servers = servers
after_colon (some idx) line servers = accepted (trim_space (drop (idx + 1) line)) servers

abbrev is_continuation : Bytes → Bool
is_continuation line =
    not (is_nil line) && (get_or line 0 0 == b' ' || get_or line 0 0 == b'\t' || is_valid_ip line)

-- The loop over the lines, by `inDNS`.
unfoldable pub servers_from : Bool → List Bytes → List Bytes
servers_from in_dns [] = []
servers_from in_dns (text ∷ lines) =
    let line = trim_space text in
    let inside = servers_from true lines in
    let outside = servers_from false lines in
    if contains_string line (codes "DNS Servers")
    then after_colon (index_string line (codes ":")) line inside
    else if in_dns
    then (if is_continuation line
        then accepted (trim_space line) inside
        else if not (is_nil line)
        then outside
        else inside)
    else outside

-- What `ReadFile` gives into a buffer of 64 KiB.
abbrev read_output : Option Bytes → Bytes
read_output none = []
read_output (some output) = take 65536 output

unfoldable pub get_system_dns_servers : Option Bytes → List Bytes
unfolding servers_from
get_system_dns_servers output = servers_from false (split_lines (read_output output))

abbrev first_field : List Bytes → Bytes → Bytes
first_field [] rest = rest
first_field (field ∷ fields) rest = field

unfoldable pub index_of : Bytes → List Bytes → Bytes
index_of name [] = []
index_of name (line ∷ lines) =
    let rest = index_of name lines in
    if contains_string line name then first_field (split_fields line) rest else rest

unfoldable pub get_interface_index : Bytes → Option Bytes → Bytes
unfolding index_of
get_interface_index name output = index_of name (split_lines (read_output output))

accepted_valid :
    (ip : Bytes) (servers : List Bytes)
    → all is_valid_ip servers ≡ true
    → all is_valid_ip (accepted ip servers) ≡ true
accepted_valid ip servers h = elim (Bool-cases (is_valid_ip ip)) [
  | inl e ↦ rw (e, e) h
  | inr e ↦ rw e h
]

after_colon_valid :
    (idx : Option ℕ) (line : Bytes) (servers : List Bytes)
    → all is_valid_ip servers ≡ true
    → all is_valid_ip (after_colon idx line servers) ≡ true
after_colon_valid none line servers h = h
after_colon_valid (some idx) line servers h = accepted_valid _ servers h

servers_from_valid :
    (in_dns : Bool) (lines : List Bytes) → all is_valid_ip (servers_from in_dns lines) ≡ true
unfolding servers_from
servers_from_valid in_dns [] = refl
servers_from_valid in_dns (text ∷ lines) =
    let line = trim_space text in
    let inside = servers_from_valid true lines in
    let outside = servers_from_valid false lines in
    ground (
      arith,
      inside,
      outside,
      after_colon_valid (index_string line (codes ":")) line (servers_from true lines),
      accepted_valid (trim_space line) (servers_from true lines),
    )

pub get_system_dns_servers_valid :
    (output : Option Bytes) → all is_valid_ip (get_system_dns_servers output) ≡ true
unfolding get_system_dns_servers
get_system_dns_servers_valid output = servers_from_valid false (split_lines (read_output output))
