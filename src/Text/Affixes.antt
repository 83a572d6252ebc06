-- ===== src/Text/Affixes.antt =====
-- What `HasPrefix` and `HasSuffix` decide.
use dnn_daemon.Common.{
  refl, ◌-◌, ◌≡◌, refl, Bool-cases, inl, inr, sym, ap, ◌∙◌, true, ◌++◌, length, take, drop, arith,
  length-append, &&-eq-true,
}
use dnn_daemon.Common.Bytes.{Bytes, equal, equal_self, equal→eq}
use dnn_daemon.Common.{take-append-drop, take-append_self, drop-append_self}
use dnn_daemon.Text.{has_prefix, has_suffix}

pub has_prefix-splits : (s p : Bytes) → has_prefix s p ≡ true → s ≡ p ++ drop (length p) s
unfolding has_prefix
has_prefix-splits s p h =
    let e = equal→eq (take (length p) s) p (&&-eq-true _ _ h).1 in
    sym (take-append-drop (length p) s) ∙ ap (λ x. x ++ drop (length p) s) e

pub has_prefix-append : (p t : Bytes) → has_prefix (p ++ t) p ≡ true
unfolding has_prefix
has_prefix-append p t = rw (take-append_self p t, equal_self p) (ground (arith, length-append p t))

pub has_suffix-splits :
    (s x : Bytes) → has_suffix s x ≡ true → s ≡ take (length s - length x) s ++ x
unfolding has_suffix
has_suffix-splits s x h =
    let e = equal→eq (drop (length s - length x) s) x (&&-eq-true _ _ h).1 in
    sym (take-append-drop (length s - length x) s) ∙ ap (λ y. take (length s - length x) s ++ y) e

pub cut_suffix : (t x : Bytes) → take (length (t ++ x) - length x) (t ++ x) ≡ t
cut_suffix t x =
    let e : length (t ++ x) - length x ≡ length t = omega (arith, length-append t x) in
    rw e (take-append_self t x)

pub has_suffix-append_self : (t x : Bytes) → has_suffix (t ++ x) x ≡ true
unfolding has_suffix
has_suffix-append_self t x =
    let e : length (t ++ x) - length x ≡ length t = omega (arith, length-append t x) in
    rw (e, drop-append_self t x, equal_self x) (ground (arith, length-append t x))

-- Texts with the same end are equal when what stands before it is.
pub equal-append_same : (s t x : Bytes) → equal (s ++ x) (t ++ x) ≡ equal s t
equal-append_same s t x = elim (Bool-cases (equal (s ++ x) (t ++ x))) [
  | inl e ↦
      let same : s ≡ t =
        sym (cut_suffix s x)
        ∙ ap (λ (y : Bytes). take (length y - length x) y) (equal→eq (s ++ x) (t ++ x) e)
        ∙ cut_suffix t x in
      rw (e, same) (sym (equal_self t))
  | inr e ↦ elim (Bool-cases (equal s t)) [
    | inl f ↦ rw (equal→eq s t f) (equal_self (t ++ x) ∙ sym (equal_self t))
    | inr f ↦ rw (e, f) refl
  ]
]
