-- ===== src/DnsConfig/Merge.antt =====
-- internal/dnsconfig/windows.go: the result of mergeInterfaceConfigs, by the name of an interface.
use dnn_daemon.Common.{
  ◌||◌, ◌≡◌, refl, sym, ap, ◌∙◌, false, not, Option, none, some, List, [], ◌∷◌, if◌then◌else◌, any,
  arith, Bool-cases, inl, inr, Option-cases,
}
use dnn_daemon.Common.Bytes.{Bytes, equal, equal→eq, equal_iff, Distinct}
use dnn_daemon.DnsConfig.{InterfaceConfig}
use dnn_daemon.DnsConfig.Saved.{
  named, names, is_there, put, put_all, put_missing, merge_interface_configs,
}

-- The first of two.
abbrev pub or_else : Option InterfaceConfig → Option InterfaceConfig → Option InterfaceConfig
or_else none other = other
or_else (some iface) other = some iface

named-put :
    (name : Bytes) (iface : InterfaceConfig) (entries : List InterfaceConfig)
    → named name (put iface entries)
      ≡ (if equal iface.name name then some iface else named name entries)
unfolding named put
named-put name iface [] = refl
named-put name iface (entry ∷ entries) = ground (
  arith,
  named-put name iface entries,
  equal_iff entry.name iface.name,
  equal_iff iface.name name,
  equal_iff entry.name name,
)

pub named-none :
    (name : Bytes) (entries : List InterfaceConfig)
    → any (equal name) (names entries) ≡ false
    → named name entries ≡ none
unfolding named
named-none name [] h = refl
named-none name (entry ∷ entries) h =
    ground (arith, named-none name entries, equal_iff entry.name name, equal_iff name entry.name, h)

named-put_all :
    (name : Bytes) (entries interfaces : List InterfaceConfig)
    → Distinct (names interfaces)
    → named name (put_all entries interfaces) ≡ or_else (named name interfaces) (named name entries)
unfolding put_all named
named-put_all name entries [] d = refl
named-put_all name entries (iface ∷ interfaces) d = elim (Bool-cases (equal iface.name name)) [
  | inl e ↦
      let absent : named name interfaces ≡ none = named-none name interfaces (
        ap (λ (n : Bytes). any (equal n) (names interfaces)) (sym (equal→eq iface.name name e))
        ∙ d.0) in
      rw e (
        named-put_all name (put iface entries) interfaces d.1
        ∙ ap (λ o. or_else o (named name (put iface entries))) absent
        ∙ (rw (named-put name iface entries, e) refl))
  | inr e ↦ rw e (
      named-put_all name (put iface entries) interfaces d.1
      ∙ (rw (named-put name iface entries, e) refl))
]

pub or_else-none : (o : Option InterfaceConfig) → or_else o none ≡ o
or_else-none none = refl
or_else-none (some iface) = refl

pub or_else_assoc :
    (o p q : Option InterfaceConfig) → or_else (or_else o p) q ≡ or_else o (or_else p q)
or_else_assoc none p q = refl
or_else_assoc (some iface) p q = refl

-- One turn of the loop over the current interfaces.
abbrev kept : List InterfaceConfig → InterfaceConfig → List InterfaceConfig
kept entries iface =
    if not (is_there (named iface.name entries)) then put iface entries else entries

abbrev pub only : Bytes → InterfaceConfig → Option InterfaceConfig
only name iface = if equal iface.name name then some iface else none

named-kept :
    (name : Bytes) (entries : List InterfaceConfig) (iface : InterfaceConfig)
    → named name (kept entries iface) ≡ or_else (named name entries) (only name iface)
named-kept name entries iface = elim (Bool-cases (equal iface.name name)) [
  | inl e ↦ elim (Option-cases (named name entries)) [
    | inl a ↦
        let absent : named iface.name entries ≡ none =
          ap (λ (n : Bytes). named n entries) (equal→eq iface.name name e) ∙ a in
        rw (absent, a, e) (named-put name iface entries ∙ (rw e refl))
    | inr (saved, a) ↦
        let present : named iface.name entries ≡ some saved =
          ap (λ (n : Bytes). named n entries) (equal→eq iface.name name e) ∙ a in
        rw (present, a) refl
  ]
  | inr e ↦ elim (Option-cases (named iface.name entries)) [
    | inl a ↦
        rw (a, e) (named-put name iface entries ∙ (rw e (sym (or_else-none (named name entries)))))
    | inr (saved, a) ↦ rw (a, e) (sym (or_else-none (named name entries)))
  ]
]

pub only-named :
    (name : Bytes) (iface : InterfaceConfig) (interfaces : List InterfaceConfig)
    → or_else (only name iface) (named name interfaces) ≡ named name (iface ∷ interfaces)
unfolding named
only-named name iface interfaces = ground arith

named-put_missing :
    (name : Bytes) (entries interfaces : List InterfaceConfig)
    → named name (put_missing entries interfaces)
      ≡ or_else (named name entries) (named name interfaces)
unfolding put_missing
named-put_missing name entries [] = sym (or_else-none (named name entries)) ∙ (unfold named in refl)
named-put_missing name entries (iface ∷ interfaces) =
    named-put_missing name (kept entries iface) interfaces
    ∙ ap (λ o. or_else o (named name interfaces)) (named-kept name entries iface)
    ∙ or_else_assoc (named name entries) (only name iface) (named name interfaces)
    ∙ ap (or_else (named name entries)) (only-named name iface interfaces)

any-put :
    (name : Bytes) (iface : InterfaceConfig) (entries : List InterfaceConfig)
    → any (equal name) (names (put iface entries))
      ≡ (any (equal name) (names entries) || equal name iface.name)
unfolding put
any-put name iface [] = ground arith
any-put name iface (entry ∷ entries) = ground (
  arith,
  any-put name iface entries,
  equal_iff entry.name iface.name,
  equal_iff name iface.name,
  equal_iff name entry.name,
)

put-Distinct :
    (iface : InterfaceConfig) (entries : List InterfaceConfig)
    → Distinct (names entries)
    → Distinct (names (put iface entries))
unfolding put
put-Distinct iface [] d = (refl, tt)
put-Distinct iface (entry ∷ entries) d = elim (Bool-cases (equal entry.name iface.name)) [
  | inl e ↦ rw (e, sym (equal→eq entry.name iface.name e)) d
  | inr e ↦
      rw e (any-put entry.name iface entries ∙ (rw (d.0, e) refl), put-Distinct iface entries d.1)
]

put_all-Distinct :
    (entries interfaces : List InterfaceConfig)
    → Distinct (names entries)
    → Distinct (names (put_all entries interfaces))
unfolding put_all
put_all-Distinct entries [] d = d
put_all-Distinct entries (iface ∷ interfaces) d =
    put_all-Distinct (put iface entries) interfaces (put-Distinct iface entries d)

put_missing-Distinct :
    (entries interfaces : List InterfaceConfig)
    → Distinct (names entries)
    → Distinct (names (put_missing entries interfaces))
unfolding put_missing
put_missing-Distinct entries [] d = d
put_missing-Distinct entries (iface ∷ interfaces) d =
    elim (Bool-cases (is_there (named iface.name entries))) [
      | inl e ↦ rw e (put_missing-Distinct entries interfaces d)
      | inr e ↦
          rw e (put_missing-Distinct (put iface entries) interfaces (put-Distinct iface entries d))
    ]

-- How Go visits a map: each entry once, in some order.
pub record Visits (visit : List InterfaceConfig → List InterfaceConfig) : Type 0 where
  pub same :
      (name : Bytes) (entries : List InterfaceConfig)
      → Distinct (names entries)
      → named name (visit entries) ≡ named name entries
  pub once :
      (entries : List InterfaceConfig) → Distinct (names entries) → Distinct (names (visit entries))

abbrev pub entries_of : Option (List InterfaceConfig) → List InterfaceConfig
entries_of none = []
entries_of (some interfaces) = interfaces

module _ {visit : List InterfaceConfig → List InterfaceConfig} (visits : Visits visit) where
  -- What is saved for an interface is what was saved before or, failing this, what it has now.
  pub named-merge :
      (name : Bytes) (saved : Option (List InterfaceConfig)) (current : List InterfaceConfig)
      → Distinct (names (entries_of saved))
      → named name (merge_interface_configs visit saved current)
        ≡ or_else (named name (entries_of saved)) (named name current)
  unfolding merge_interface_configs
  named-merge name none current d = unfold named in refl
  named-merge name (some []) current d = unfold named in refl
  named-merge name (some (iface ∷ interfaces)) current d =
      let all = iface ∷ interfaces in
      visits.same name (put_missing (put_all [] all) current)
        (put_missing-Distinct (put_all [] all) current (put_all-Distinct [] all tt))
      ∙ named-put_missing name (put_all [] all) current
      ∙ ap (λ o. or_else o (named name current))
          (named-put_all name [] all d ∙ (unfold named in or_else-none (named name all)))

  pub merge-Distinct :
      (saved : Option (List InterfaceConfig)) (current : List InterfaceConfig)
      → Distinct (names current)
      → Distinct (names (merge_interface_configs visit saved current))
  unfolding merge_interface_configs
  merge-Distinct none current c = c
  merge-Distinct (some []) current c = c
  merge-Distinct (some (iface ∷ interfaces)) current c =
      let all = iface ∷ interfaces in
      visits.once (put_missing (put_all [] all) current)
        (put_missing-Distinct (put_all [] all) current (put_all-Distinct [] all tt))
