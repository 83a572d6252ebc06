-- ===== src/Dns/Target.antt =====
-- The name that an A query resolves, by the label that stands before the DNN ID.
use dnn_daemon.Common.{
  ℕ, ◌≡◌, ◌≢◌, ◌⊎◌, inl, inr, refl, sym, ap, ◌∙◌, true, false, Option, none, some, [], ◌∷◌, ◌++◌,
  ltb, ◌-◌, ◌==◌, suc, zero, is_nil, if◌then◌else◌, Bool-cases, take, drop, get_or, length,
  is_nil→ne, is_nil→eq, arith, append_assoc, List,
}
use dnn_daemon.Common.Bytes.{Bytes}
use dnn_daemon.Runtime.{Runtime}
use dnn_daemon.Text.{contains, split, last, index}
use dnn_daemon.Text.Laws.{contains-last-split}
use dnn_daemon.Detector.{is_dnn_name}
use mathlib.Core.Path.{subst}
use dnn_daemon.Dns.{name_to_resolve, with_prefix, resolve_at}

-- The label that ends at the dot right before the first place where the ID is found in the name.
pub record Beside (name tld label : Bytes) : Type 0 where
  pub before : Bytes
  pub rest : Bytes
  pub parts : name ≡ (before ++ label) ++ (b'.' ∷ rest)
  pub start : (before ≡ []) ⊎ ((b : Bytes) × (before ≡ b ++ (b'.' ∷ [])))
  pub no_dot : contains label b'.' ≡ false
  pub found : index name tld ≡ some (suc (length (before ++ label)))

cut_at :
    (s : Bytes) (k : ℕ)
    → (get_or s k 0 == b'.') ≡ true
    → (s ≡ take k s ++ (b'.' ∷ drop (suc k) s)) × (length (take k s) ≡ k)
cut_at [] k h = ground arith
cut_at (c ∷ s) zero h = ground arith
cut_at (c ∷ s) (suc k) h = ground (arith, cut_at s k h)

get_or-middle : (p rest : Bytes) → get_or (p ++ (b'.' ∷ rest)) (length p) 0 ≡ b'.'
get_or-middle [] rest = refl
get_or-middle (c ∷ p) rest = get_or-middle p rest

c_eq_dot : (c : ℕ) → (c == b'.') ≡ true → c ≡ b'.'
c_eq_dot c h = ground arith

-- The last part is the whole text, or follows a dot.
last_part :
    (s : Bytes)
    → (split s b'.' ≡ s ∷ [])
      ⊎ ((p q b : Bytes) × (ps : List Bytes) × (split s b'.' ≡ p ∷ (q ∷ ps))
          × (s ≡ b ++ (b'.' ∷ last (q ∷ ps))))
unfolding split
last_part [] = inl refl
last_part (c ∷ s) = elim (Bool-cases (c == b'.')) [
  | inl e ↦ elim (last_part s) [
    | inl h ↦ inr ([], s, [], [], rw (e, h) refl, rw (c_eq_dot c e) (unfold last in refl))
    | inr (p, q, b, ps, h, k) ↦
        inr ([], p, c ∷ b, q ∷ ps, rw (e, h) refl, unfold last in ap (λ t. c ∷ t) k)
  ]
  | inr e ↦ elim (last_part s) [
    | inl h ↦ inl (rw (e, h) refl)
    | inr (p, q, b, ps, h, k) ↦ inr (c ∷ p, q, c ∷ b, ps, rw (e, h) refl, ap (λ t. c ∷ t) k)
  ]
]

-- How the part of the name before the dot is cut into labels, the last one at its end.
last_label :
    (s : Bytes)
    → (before : Bytes) × (s ≡ before ++ last (split s b'.'))
      × ((before ≡ []) ⊎ ((b : Bytes) × (before ≡ b ++ (b'.' ∷ []))))
unfolding last
last_label s = elim (last_part s) [
  | inl h ↦ ([], rw h refl, inl refl)
  | inr (p, q, b, ps, h, k) ↦
      (b ++ (b'.' ∷ []), rw (h, append_assoc b (b'.' ∷ []) (last (q ∷ ps))) k, inr (b, refl))
]

dot-Beside :
    (name tld : Bytes) (k : ℕ)
    → index name tld ≡ some (suc k)
    → (get_or name k 0 == b'.') ≡ true
    → Beside name tld (last (split (take k name) b'.'))
dot-Beside name tld k f h =
    let (cut, long) = cut_at name k h in
    let (before, parts, start) = last_label (take k name) in
    record {
      before = before;
      rest = drop (suc k) name;
      parts = cut ∙ ap (λ p. p ++ (b'.' ∷ drop (suc k) name)) parts;
      start = start;
      no_dot = contains-last-split (take k name) b'.';
      found = f ∙ ap (λ n. some (suc n)) (sym long ∙ ap length parts);
    }

Beside-dot :
    (name tld label : Bytes)
    → Beside name tld label
    → (k : ℕ) × (index name tld ≡ some (suc k)) × (get_or name k 0 ≡ b'.')
Beside-dot name tld label p = (
  length (p.before ++ label),
  p.found,
  ap (λ s. get_or s (length (p.before ++ label)) 0) p.parts
      ∙ get_or-middle (p.before ++ label) p.rest,
)

pred-suc : (k : ℕ) → suc k - 1 ≡ k
pred-suc k = omega arith

positive : (k : ℕ) → ltb 0 (suc k) ≡ true
positive k = ground arith

module _ ⦃r : Runtime⦄ where
  -- The ID after the label beside it, if there is one that is not empty and not a DNN name itself, and
  -- else the ID alone.
  pub data IsTarget (name tld : Bytes) : Bytes → Type 0 where
    with_label :
        {label : Bytes}
        → Beside name tld label
        → label ≢ []
        → is_dnn_name label ≡ false
        → IsTarget name tld (label ++ (b'.' ∷ tld))
    unusable :
        {label : Bytes}
        → Beside name tld label
        → (label ≡ []) ⊎ (is_dnn_name label ≡ true)
        → IsTarget name tld tld
    no_label : ((label : Bytes) → ¬ Beside name tld label) → IsTarget name tld tld

  with_prefix-IsTarget :
      (name label tld : Bytes) → Beside name tld label → IsTarget name tld (with_prefix label tld)
  with_prefix-IsTarget name label tld p = elim (Bool-cases (is_dnn_name label)) [
    | inl a ↦ rw a (unusable p (inr a))
    | inr a ↦ elim (Bool-cases (is_nil label)) [
      | inl b ↦ rw (a, b) (unusable p (inl (is_nil→eq label b)))
      | inr b ↦ rw (a, b) (with_label p (is_nil→ne label b) a)
    ]
  ]

  none-Beside :
      (name tld : Bytes) (at : Option ℕ)
      → index name tld ≡ at
      → ((k : ℕ) → at ≡ some (suc k) → (get_or name k 0 == b'.') ≡ false)
      → (label : Bytes) → ¬ Beside name tld label
  none-Beside name tld at e h label p =
      let (k, f, dot) = Beside-dot name tld label p in ground (arith, h k (sym e ∙ f), dot)

  resolve_at-suc :
      (name tld : Bytes) (k : ℕ)
      → resolve_at name tld (some (suc k)) ≡ (
          if get_or name k 0 == b'.'
          then with_prefix (last (split (take k name) b'.')) tld
          else tld)
  resolve_at-suc name tld k = rw (pred-suc k, positive k) refl

  choice-IsTarget :
      (name tld : Bytes) (k : ℕ)
      → index name tld ≡ some (suc k)
      → IsTarget name tld (
          if get_or name k 0 == b'.'
          then with_prefix (last (split (take k name) b'.')) tld
          else tld)
  choice-IsTarget name tld k e = elim (Bool-cases (get_or name k 0 == b'.')) [
    | inl a ↦ rw a (
        with_prefix-IsTarget name (last (split (take k name) b'.')) tld (dot-Beside name tld k e a))
    | inr a ↦ rw a (no_label (none-Beside name tld (some (suc k)) e (λ j f. ground arith)))
  ]

  resolve_at-IsTarget :
      (name tld : Bytes) (at : Option ℕ)
      → index name tld ≡ at
      → IsTarget name tld (resolve_at name tld at)
  resolve_at-IsTarget name tld none e = no_label (none-Beside name tld none e (λ k f. ground arith))
  resolve_at-IsTarget name tld (some zero) e =
      no_label (none-Beside name tld (some zero) e (λ k f. ground arith))
  resolve_at-IsTarget name tld (some (suc k)) e =
      subst (IsTarget name tld) (sym (resolve_at-suc name tld k)) (choice-IsTarget name tld k e)

  -- Whatever the query, the name that is resolved is the DNN ID after the label that stands before the
  -- first place where the ID is found in the query, with a dot between, if that label is not empty and
  -- not a DNN name itself; with such a label that is not usable, or with none, it is the ID alone.
  pub name_to_resolve-IsTarget : (name tld : Bytes) → IsTarget name tld (name_to_resolve name tld)
  unfolding name_to_resolve
  name_to_resolve-IsTarget name tld = resolve_at-IsTarget name tld (index name tld) refl
