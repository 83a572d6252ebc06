-- ===== src/Tun/Windows.antt =====
-- internal/tun/tun_windows.go: Read, Write and Close, over what the calls of wintun.dll give. A handle is a
-- number, 0 when there is none; the calls that the three make on a session or an adapter are listed in order
-- (`WaitForSingleObject`, on the event of the session, is a call of Windows).
use dnn_daemon.Common.{
  ℕ, ◌<◌, ◌-◌, ◌^◌, leb, any, Bool-cases, inl, inr, ◌≡◌, refl, Bool, true, false, Option, none,
  some, List, [], ◌∷◌, ◌++◌, ◌==◌, if◌then◌else◌, length, take, arith, not,
}
use dnn_daemon.Common.Bytes.{Bytes, codes}
use dnn_daemon.Tun.Address.{decimal, dotted}

pub record Device : Type 0 where
  pub closed : Bool
  pub session : ℕ
  pub adapter : ℕ

pub data Call : Type 0 where
  receive_packet release_receive_packet allocate_send_packet send_packet : ℕ → Call
  end_session close_adapter : ℕ → Call

pub data Received : Type 0 where
  received : Bytes → Received
  read_closed waiting : Received

abbrev offered : Device → ℕ → Option Bytes → Received × List Call
offered t room none = (waiting, receive_packet t.session ∷ [])
offered t room (some packet) = (
  received (take room packet),
  receive_packet t.session ∷ (release_receive_packet t.session ∷ []),
)

-- One turn of the loop of `Read`, after the wait for the event, by the device as it is then and the packet
-- that the session gives: with none, the loop goes on.
unfoldable pub read_turn : Device → ℕ → Option Bytes → Received × List Call
read_turn t room packet = if t.closed then (read_closed, []) else offered t room packet

abbrev or_again : Received × List Call → Received × List Call → Received × List Call
or_again (waiting, calls) again = (again.0, calls ++ again.1)
or_again (result, calls) again = (result, calls)

-- By the events, as far as they go, each with the device as it is then.
unfoldable pub read_loop : ℕ → List (Device × Option Bytes) → Received × List Call
unfolding read_turn
read_loop room [] = (waiting, [])
read_loop room ((t, packet) ∷ wakes) = or_again (read_turn t room packet) (read_loop room wakes)

unfoldable pub read : Device → ℕ → List (Device × Option Bytes) → Received × List Call
unfolding read_loop
read t room wakes = if t.closed then (read_closed, []) else read_loop room wakes

pub data Sent : Type 0 where
  sent : ℕ → Bytes → Sent
  write_closed write_failed : Sent

-- By the address that `WintunAllocateSendPacket` gives, 0 for none.
unfoldable pub write : Device → Bytes → ℕ → Sent × List Call
write t buf allocated =
    if t.closed
    then (write_closed, [])
    else if allocated == 0
    then (write_failed, allocate_send_packet t.session ∷ [])
    else (sent (length buf) buf, allocate_send_packet t.session ∷ (send_packet t.session ∷ []))

abbrev ended : (ℕ → Call) → ℕ → List Call
ended call handle = if handle == 0 then [] else call handle ∷ []

unfoldable pub close : Device → Device × List Call
close t = if t.closed then (t, []) else (
  record { closed = true; session = 0; adapter = 0 },
  ended end_session t.session ++ ended close_adapter t.adapter,
)

-- The command line of `runNetshCommand`: an argument that begins with a quote, or is empty, is not quoted.
abbrev quoted : Bytes → Bytes
quoted [] = b' ' ∷ []
quoted (c ∷ arg) =
    if not (c == b'"') then b' ' ∷ (b'"' ∷ ((c ∷ arg) ++ b'"' ∷ [])) else b' ' ∷ (c ∷ arg)

abbrev arguments : List Bytes → Bytes
arguments [] = []
arguments (arg ∷ args) = quoted arg ++ arguments args

unfoldable pub run_netsh_command : List Bytes → Bytes
run_netsh_command args = codes "cmd.exe /C netsh" ++ arguments args

-- An octet of `net.CIDRMask(ones, 32)`, by the ones that are left for it.
abbrev mask_octet : ℕ → ℕ
mask_octet ones = if leb 8 ones then 255 else 256 - 2 ^ (8 - ones)

-- By the text of the address and the length of its prefix.
unfoldable pub set_ip_address : Bytes → Bytes → ℕ → Bytes
unfolding run_netsh_command dotted
set_ip_address name ip ones = run_netsh_command (
    codes "interface"
    ∷ codes "ip"
    ∷ codes "set"
    ∷ codes "address"
    ∷ name
    ∷ codes "static"
    ∷ ip
    ∷ dotted (mask_octet ones) (mask_octet (ones - 8)) (mask_octet (ones - 16))
        (mask_octet (ones - 24))
    ∷ [])

unfoldable pub set_ipv6_address : Bytes → Bytes → ℕ → Bytes
unfolding run_netsh_command decimal
set_ipv6_address name ip ones =
    let network = ip ++ b'/' ∷ decimal ones in
    run_netsh_command
      (codes "interface" ∷ codes "ipv6" ∷ codes "add" ∷ codes "address" ∷ name ∷ network ∷ [])

-- What may happen to a device: a turn of a read, a write, or a close, in any order.
pub data Step : Type 0 where
  turn : ℕ → Option Bytes → Step
  send : Bytes → ℕ → Step
  shut : Step

abbrev is_shut : Step → Bool
is_shut shut = true
is_shut _ = false

-- The calls of the library that a sequence of steps makes.
unfoldable pub calls_of : Device → List Step → List Call
unfolding read_turn write close
calls_of t [] = []
calls_of t (turn room packet ∷ steps) = (read_turn t room packet).1 ++ calls_of t steps
calls_of t (send buf allocated ∷ steps) = (write t buf allocated).1 ++ calls_of t steps
calls_of t (shut ∷ steps) = (close t).1 ++ calls_of (close t).0 steps

-- Calls that use the handles of an open device: the session until it is ended, and nothing after that but
-- the close of the adapter. The last argument says whether the session is ended.
abbrev pub Uses : ℕ → ℕ → List Call → Bool → Type 0
Uses session adapter [] is_ended = is_ended ≡ false
Uses session adapter (receive_packet h ∷ calls) is_ended =
    (h ≡ session) × Uses session adapter calls is_ended
Uses session adapter (release_receive_packet h ∷ calls) is_ended =
    (h ≡ session) × Uses session adapter calls is_ended
Uses session adapter (allocate_send_packet h ∷ calls) is_ended =
    (h ≡ session) × Uses session adapter calls is_ended
Uses session adapter (send_packet h ∷ calls) is_ended =
    (h ≡ session) × Uses session adapter calls is_ended
Uses session adapter (end_session h ∷ calls) is_ended =
    (h ≡ session) × (calls ≡ close_adapter adapter ∷ []) × (is_ended ≡ true)
Uses session adapter (close_adapter h ∷ calls) is_ended = ⊥

closed_silent : (t : Device) (steps : List Step) → t.closed ≡ true → calls_of t steps ≡ []
unfolding calls_of read_turn write close
closed_silent t [] h = refl
closed_silent t (turn room packet ∷ steps) h = simp (h, closed_silent t steps h)
closed_silent t (send buf allocated ∷ steps) h = simp (h, closed_silent t steps h)
closed_silent t (shut ∷ steps) h = simp (h, closed_silent t steps h)

module _ (t : Device) (h : t.closed ≡ false) where
  read_turn_open :
      (room : ℕ) (packet : Option Bytes) → read_turn t room packet ≡ offered t room packet
  unfolding read_turn
  read_turn_open room packet = simp h

  write_open :
      (buf : Bytes) (allocated : ℕ)
      → (write t buf allocated).1 ≡ (
          if allocated == 0
          then allocate_send_packet t.session ∷ []
          else allocate_send_packet t.session ∷ (send_packet t.session ∷ []))
  unfolding write
  write_open buf allocated = ground arith

  close_open :
      (p : 0 < t.session) (q : 0 < t.adapter)
      → close t ≡ (
        record { closed = true; session = 0; adapter = 0 },
        end_session t.session ∷ (close_adapter t.adapter ∷ []),
      )
  unfolding close
  close_open p q = ground arith

-- Whatever turns of a read, writes and closes there are of an open device that has a session and an
-- adapter, and in whatever order, they call the library with the handles of its session and adapter
-- only; the session is ended and the adapter closed if and only if the device is closed at some time,
-- then once, in this order, and no call on a session or an adapter follows.
pub calls_of-Uses :
    (t : Device) (steps : List Step)
    → t.closed ≡ false
    → 0 < t.session
    → 0 < t.adapter
    → Uses t.session t.adapter (calls_of t steps) (any is_shut steps)
unfolding calls_of
calls_of-Uses t [] h p q = refl
calls_of-Uses t (turn room none ∷ steps) h p q =
    rw (read_turn_open t h room none) (refl, calls_of-Uses t steps h p q)
calls_of-Uses t (turn room (some packet) ∷ steps) h p q =
    rw (read_turn_open t h room (some packet)) (refl, (refl, calls_of-Uses t steps h p q))
calls_of-Uses t (send buf allocated ∷ steps) h p q = elim (Bool-cases (allocated == 0)) [
  | inl e ↦ rw (write_open t h buf allocated, e) (refl, calls_of-Uses t steps h p q)
  | inr e ↦ rw (write_open t h buf allocated, e) (refl, (refl, calls_of-Uses t steps h p q))
]
calls_of-Uses t (shut ∷ steps) h p q =
    let shut_device : Device = record { closed = true; session = 0; adapter = 0 } in
    rw (close_open t h p q, closed_silent shut_device steps refl) (refl, refl, refl)
