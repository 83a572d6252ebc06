-- ===== src/Detector/Names.antt =====
-- `IsDNNName` and `GetTLD` on whole domain names.
use dnn_daemon.Common.{
  ◌≤◌, ◌≡◌, refl, ap, inl, inr, true, false, [], ◌∷◌, ◌++◌, ltb, length, all, arith, Bool-cases,
  length-append, ◌&&◌, not, ◌↔◌, List, map,
}
use dnn_daemon.Common.Bytes.{Bytes}
use dnn_daemon.Runtime.{Runtime}
use dnn_daemon.Text.{has_suffix, trim_suffix, to_lower, lower_byte, is_ascii, split, last, contains}
use dnn_daemon.Text.Laws.{
  to_lower-ascii, length-last-split, trim_suffix-append, trim_suffix-absent, contains-append,
  length-map,
}
use dnn_daemon.Detector.Encoded.{DnnId, is_single_part_dnn_iff}
use dnn_daemon.Detector.{is_single_part_dnn, first_dnn_part, is_dnn_name, get_tld}

-- The places of a list before its first part that is a DNN ID, which is `part`.
pub record Leftmost (parts : List Bytes) (part : Bytes) : Type 0 where
  pub before : List Bytes
  pub after : List Bytes
  pub splits : parts ≡ before ++ (part ∷ after)
  pub none_before : all (λ p. not (is_single_part_dnn p)) before ≡ true
  pub is_id : DnnId part

Leftmost-cons :
    {parts : List Bytes} {part : Bytes} (p : Bytes)
    → is_single_part_dnn p ≡ false
    → Leftmost parts part
    → Leftmost (p ∷ parts) part
Leftmost-cons p h l = record {
  before = p ∷ l.before;
  after = l.after;
  splits = ap (◌∷◌ p) l.splits;
  none_before = rw h l.none_before;
  is_id = l.is_id;
}

Leftmost-here :
    (p : Bytes) (parts : List Bytes) → is_single_part_dnn p ≡ true → Leftmost (p ∷ parts) p
Leftmost-here p parts h = record {
  before = [];
  after = parts;
  splits = refl;
  none_before = refl;
  is_id = (is_single_part_dnn_iff p).0 h;
}

single_long : (p : Bytes) → is_single_part_dnn p ≡ true → 8 ≤ length p
unfolding is_single_part_dnn
single_long p h = ground arith

-- The first ID of a list whose last part is one.
first_dnn_part-Leftmost :
    (fallback : Bytes) (parts : List Bytes)
    → is_single_part_dnn (last parts) ≡ true
    → Leftmost parts (first_dnn_part fallback parts)
unfolding first_dnn_part last
first_dnn_part-Leftmost fallback [] h = absurd (omega (arith, single_long [] h))
first_dnn_part-Leftmost fallback (p ∷ []) h = rw h (Leftmost-here p [] h)
first_dnn_part-Leftmost fallback (p ∷ (q ∷ ps)) h = elim (Bool-cases (is_single_part_dnn p)) [
  | inl a ↦ rw a (Leftmost-here p (q ∷ ps) a)
  | inr a ↦ rw a (Leftmost-cons p a (first_dnn_part-Leftmost fallback (q ∷ ps) h))
]

module _ ⦃r : Runtime⦄ where
  -- The parts of a name, as both functions split it.
  abbrev pub name_parts : Bytes → List Bytes
  name_parts name = split (to_lower (trim_suffix name (b'.' ∷ []))) b'.'

  is_dnn_name-eq :
      (name : Bytes)
      → is_dnn_name name ≡ (
          not (ltb (length name) 8)
          && not (contains name b' ')
          && is_single_part_dnn (last (name_parts name)))
  unfolding is_dnn_name is_single_part_dnn
  is_dnn_name-eq [] = refl
  is_dnn_name-eq (c ∷ name) = ground arith

  -- A name is a DNN name exactly when it has at least eight bytes, none of them a space, and its last
  -- part, in lower case and without a final dot, is a DNN ID.
  pub is_dnn_name_iff :
      (name : Bytes)
      → (is_dnn_name name ≡ true)
        ↔ ((8 ≤ length name) × (contains name b' ' ≡ false) × DnnId (last (name_parts name)))
  is_dnn_name_iff name =
      let id = is_single_part_dnn_iff (last (name_parts name)) in
      (
        λ h. (
          ground (arith, is_dnn_name-eq name),
          ground (arith, is_dnn_name-eq name),
          id.0 (ground (arith, is_dnn_name-eq name)),
        ),
        λ h. ground (arith, is_dnn_name-eq name, id.1 h.2),
      )

  -- On a DNN name `GetTLD` returns the leftmost part that is a DNN ID.
  pub get_tld-Leftmost :
      (name : Bytes) → is_dnn_name name ≡ true → Leftmost (name_parts name) (get_tld name)
  unfolding get_tld
  get_tld-Leftmost name h =
      first_dnn_part-Leftmost (last (name_parts name)) (name_parts name)
        ((is_single_part_dnn_iff (last (name_parts name))).1 ((is_dnn_name_iff name).0 h).2)

  name_parts-dot :
      (name : Bytes)
      → has_suffix name (b'.' ∷ []) ≡ false
      → name_parts (name ++ b'.' ∷ []) ≡ name_parts name
  name_parts-dot name k = rw (trim_suffix-append name b'.', trim_suffix-absent name (b'.' ∷ []) k)

  last_part_short :
      (name : Bytes)
      → is_ascii name ≡ true
      → has_suffix name (b'.' ∷ []) ≡ false
      → length (last (name_parts name)) ≤ length name
  last_part_short name h k =
      rw (trim_suffix-absent name (b'.' ∷ []) k, to_lower-ascii name h)
        (omega (arith, length-last-split (map lower_byte name) b'.', length-map name lower_byte))

  is_dnn_name_dot :
      (name : Bytes)
      → is_ascii name ≡ true
      → has_suffix name (b'.' ∷ []) ≡ false
      → is_dnn_name (name ++ b'.' ∷ []) ≡ is_dnn_name name
  unfolding contains
  is_dnn_name_dot name h k = ground (
    arith,
    is_dnn_name-eq (name ++ b'.' ∷ []),
    is_dnn_name-eq name,
    name_parts-dot name k,
    length-append name (b'.' ∷ []),
    contains-append name (b'.' ∷ []) b' ',
    last_part_short name h k,
    single_long (last (name_parts name)),
  )

  get_tld_dot :
      (name : Bytes)
      → has_suffix name (b'.' ∷ []) ≡ false
      → get_tld (name ++ b'.' ∷ []) ≡ get_tld name
  unfolding get_tld
  get_tld_dot name k = ap (λ parts. first_dnn_part (last parts) parts) (name_parts-dot name k)

  -- A final dot changes neither the detection of an ASCII name nor its DNN ID.
  trailing_dot :
      (name : Bytes)
      → is_ascii name ≡ true
      → has_suffix name (b'.' ∷ []) ≡ false
      → (is_dnn_name (name ++ b'.' ∷ []) ≡ is_dnn_name name)
        × (get_tld (name ++ b'.' ∷ []) ≡ get_tld name)
  trailing_dot name h k = (is_dnn_name_dot name h k, get_tld_dot name k)
