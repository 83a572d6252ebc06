-- ===== src/Transports.antt =====
-- internal/transports: how a server is reached. Dialling an address is a parameter; the two transports
-- are the stubs of relay.go and tollgate.go, which always fail.
use dnn_daemon.Common.{
  ◌≡◌, ◌∙◌, sym, refl, ◌↔◌, Bool, true, false, not, ◌&&◌, Option, none, some, List, if◌then◌else◌,
  is_nil, arith, Bool-cases, Option-cases, inl, inr,
}
use dnn_daemon.Common.Bytes.{Bytes, codes, equal}
use dnn_daemon.Common.Int.{ℤ}
use dnn_daemon.Resolver.Answer.{Resolution}

abbrev pub has_relay : Resolution → Bool
has_relay res = not (is_nil res.transports.relay) && not (is_nil res.npubs)

abbrev pub has_tollgate : Resolution → Bool
has_tollgate res = equal res.transports.tollgate (codes "use") && not (is_nil res.npubs)

-- The error of `TryTransports`, when the resolution is nil or nothing connects, is `none`.
module _ {Conn : Type 0} where
  abbrev pub relay_connect : List Bytes → List Bytes → Option Conn
  relay_connect relays npubs = none

  abbrev pub tollgate_connect : List Bytes → Option Conn
  tollgate_connect npubs = none

  abbrev or_else : Option Conn → Option Conn → Option Conn
  or_else (some conn) next = some conn
  or_else none next = next

  module _ (relay : List Bytes → List Bytes → Option Conn) (tollgate : List Bytes → Option Conn)
      (dial : Bytes → ℤ → Option Conn) where
    abbrev by_ip : Resolution → Option Conn
    by_ip res = if not (is_nil res.ip) then dial res.ip res.port else none

    abbrev by_tollgate_or_ip : Resolution → Option Conn
    by_tollgate_or_ip res =
        if has_tollgate res then or_else (tollgate res.npubs) (by_ip res) else by_ip res

    -- `TryTransports`, whatever the two transports do.
    unfoldable pub try_in_order : Option Resolution → Option Conn
    unfolding equal
    try_in_order none = none
    try_in_order (some res) =
        if has_relay res
        then or_else (relay res.transports.relay res.npubs) (by_tollgate_or_ip res)
        else by_tollgate_or_ip res

    -- How a connection was made: by the first of the relay, the tollgate and the address that the
    -- resolution has and that connects.
    pub data Reached (res : Resolution) (conn : Conn) : Type 0 where
      relayed :
          has_relay res ≡ true → relay res.transports.relay res.npubs ≡ some conn → Reached res conn
      tolled :
          (has_relay res ≡ true → relay res.transports.relay res.npubs ≡ none)
          → has_tollgate res ≡ true
          → tollgate res.npubs ≡ some conn
          → Reached res conn
      direct :
          (has_relay res ≡ true → relay res.transports.relay res.npubs ≡ none)
          → (has_tollgate res ≡ true → tollgate res.npubs ≡ none)
          → is_nil res.ip ≡ false
          → dial res.ip res.port ≡ some conn
          → Reached res conn

    direct_sound :
        (res : Resolution) (conn : Conn)
        → (has_relay res ≡ true → relay res.transports.relay res.npubs ≡ none)
        → (has_tollgate res ≡ true → tollgate res.npubs ≡ none)
        → by_ip res ≡ some conn
        → Reached res conn
    direct_sound res conn a b h = direct a b (ground (arith, h)) (ground (arith, h))

    tolled_sound :
        (res : Resolution) (conn : Conn)
        → (has_relay res ≡ true → relay res.transports.relay res.npubs ≡ none)
        → by_tollgate_or_ip res ≡ some conn
        → Reached res conn
    unfolding equal
    tolled_sound res conn a h = elim (Bool-cases (has_tollgate res)) [
      | inl t ↦ elim (Option-cases (tollgate res.npubs)) [
        | inl n ↦ direct_sound res conn a (λ _. n) (rw (t, n) at h)
        | inr (found, s) ↦ tolled a t (s ∙ rw (t, s) at h)
      ]
      | inr t ↦ direct_sound res conn a (λ y. cc) (rw t at h)
    ]

    in_order_sound :
        (res : Resolution) (conn : Conn) → try_in_order (some res) ≡ some conn → Reached res conn
    unfolding try_in_order
    in_order_sound res conn h = elim (Bool-cases (has_relay res)) [
      | inl t ↦ elim (Option-cases (relay res.transports.relay res.npubs)) [
        | inl n ↦ tolled_sound res conn (λ _. n) (rw (t, n) at h)
        | inr (found, s) ↦ relayed t (s ∙ rw (t, s) at h)
      ]
      | inr t ↦ tolled_sound res conn (λ y. cc) (rw t at h)
    ]

    in_order_complete :
        (res : Resolution) (conn : Conn) → Reached res conn → try_in_order (some res) ≡ some conn
    unfolding try_in_order
    in_order_complete res conn (relayed t s) = rw (t, s) refl
    in_order_complete res conn (tolled a t s) = ground (arith, a, t, s)
    in_order_complete res conn (direct a b i s) = ground (arith, a, b, i, s)

  unfoldable pub try_transports : (Bytes → ℤ → Option Conn) → Option Resolution → Option Conn
  try_transports dial res = try_in_order relay_connect tollgate_connect dial res

  stubs_fail :
      (dial : Bytes → ℤ → Option Conn) (res : Resolution)
      → try_transports dial (some res)
        ≡ (if not (is_nil res.ip) then dial res.ip res.port else none)
  unfolding try_transports try_in_order
  stubs_fail dial res = elim (Bool-cases (has_relay res)) [
    | inl a ↦ elim (Bool-cases (has_tollgate res)) [
      | inl b ↦ rw (a, b) refl
      | inr b ↦ rw (a, b) refl
    ]
    | inr a ↦ elim (Bool-cases (has_tollgate res)) [
      | inl b ↦ rw (a, b) refl
      | inr b ↦ rw (a, b) refl
    ]
  ]

  -- Whatever the two transports do, a connection is that of the first of the relay, the tollgate and
  -- the address that the resolution has and that connects. With the stubs in their place it is that
  -- of the address, and there is none for a resolution without an address.
  pub try_in_order_iff :
      (relay : List Bytes → List Bytes → Option Conn) (tollgate : List Bytes → Option Conn)
      (dial : Bytes → ℤ → Option Conn) (res : Resolution) (conn : Conn)
      → ((try_in_order relay tollgate dial (some res) ≡ some conn)
          ↔ Reached relay tollgate dial res conn)
        × ((try_transports dial (some res) ≡ some conn)
            ↔ ((is_nil res.ip ≡ false) × (dial res.ip res.port ≡ some conn)))
  try_in_order_iff relay tollgate dial res conn = (
    (in_order_sound relay tollgate dial res conn, in_order_complete relay tollgate dial res conn),
    (
      λ h. let e = sym (stubs_fail dial res) ∙ h in (ground (arith, e), ground (arith, e)),
      λ (some_ip, dialled). stubs_fail dial res ∙ rw (some_ip, dialled) refl,
    ),
  )
