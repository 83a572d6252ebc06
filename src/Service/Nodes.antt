-- ===== src/Service/Nodes.antt =====
-- internal/service/dialogs_linux.go: the list of nodes that a dialog shows and reads.
use dnn_daemon.Common.{
  some, none, append_assoc, append-nil, sym, ap, ◌∙◌, ◌≡◌, refl, Bool, true, false, not, ◌&&◌, List,
  [], ◌∷◌, ◌++◌, all, is_nil, arith, ◌==◌, ltb,
}
use dnn_daemon.Common.Bytes.{Bytes}
use dnn_daemon.Runtime.{Runtime}
use dnn_daemon.Text.{trim_space, is_space, trim_left, trim_right, split, is_ascii, contains}
use dnn_daemon.Service.Dialogs.{
  after_node, join, nodes_of, parse_nodes, show_node_config_dialog, terminal_node_prompt, zenity,
  kdialog, terminal,
}

-- A text of a node: ASCII, not empty, with no white space and no comma.
abbrev is_plain : Bytes → Bool
is_plain node = all (λ c. ltb c 128 && not (is_space c) && not (c == b',')) node

abbrev pub IsNode : Bytes → Type 0
IsNode node = (is_nil node ≡ false) × (is_plain node ≡ true)

abbrev pub AllNodes : List Bytes → Type 0
AllNodes [] = Unit {0}
AllNodes (node ∷ nodes) = IsNode node × AllNodes nodes

plain_ascii : (s : Bytes) → is_plain s ≡ true → is_ascii s ≡ true
plain_ascii [] h = refl
plain_ascii (c ∷ s) h = ground (arith, plain_ascii s, h)

plain_contains : (s : Bytes) → is_plain s ≡ true → contains s b',' ≡ false
unfolding contains
plain_contains [] h = refl
plain_contains (c ∷ s) h = ground (arith, plain_contains s, h)

is_ascii-append : (s t : Bytes) → is_ascii (s ++ t) ≡ (is_ascii s && is_ascii t)
is_ascii-append [] t = refl
is_ascii-append (c ∷ s) t = ground (arith, is_ascii-append s t)

trim_left-plain : (s t : Bytes) → is_nil s ≡ false → is_plain s ≡ true → trim_left (s ++ t) ≡ s ++ t
unfolding trim_left
trim_left-plain [] t h p = cc
trim_left-plain (c ∷ s) t h p = ground (arith, p)

-- What ends a text is trimmed; the text stays when it has a last byte that is not white space.
trim_right-plain : (s t : Bytes) → is_plain s ≡ true → trim_right (s ++ t) ≡ s ++ trim_right t
unfolding trim_right
trim_right-plain [] t p = refl
trim_right-plain (c ∷ s) t p = ground (arith, trim_right-plain s t, p)

split-append :
    (s t : Bytes) → contains s b',' ≡ false → split (s ++ b',' ∷ t) b',' ≡ s ∷ split t b','
unfolding split contains
split-append [] t h = refl
split-append (c ∷ s) t h = ground (arith, split-append s t, h)

split_one : (s : Bytes) → contains s b',' ≡ false → split s b',' ≡ s ∷ []
unfolding split contains
split_one [] h = refl
split_one (c ∷ s) h = ground (arith, split_one s, h)

is_nil-append : (s t : Bytes) → is_nil s ≡ false → is_nil (s ++ t) ≡ false
is_nil-append [] t h = cc
is_nil-append (c ∷ s) t h = refl

blank_contains : (node : Bytes) → IsNode node → contains (b' ' ∷ node) b',' ≡ false
unfolding contains
blank_contains node h = plain_contains node h.1

abbrev pub line_feed : Bytes
line_feed = b'\n' ∷ []

trim_right-after_node :
    (nodes : List Bytes)
    → AllNodes nodes
    → trim_right (after_node nodes ++ line_feed) ≡ after_node nodes
unfolding after_node trim_right is_space
trim_right-after_node [] h = refl
trim_right-after_node (node ∷ nodes) h =
    let inner : trim_right ((node ++ after_node nodes) ++ line_feed) ≡ node ++ after_node nodes =
      rw (append_assoc node (after_node nodes) line_feed) (
        trim_right-plain node (after_node nodes ++ line_feed) h.0.1
        ∙ ap (◌++◌ node) (trim_right-after_node nodes h.1)) in
    let more : is_nil (node ++ after_node nodes) ≡ false = is_nil-append node _ h.0.0 in
    rw (inner, more) refl

is_ascii-after_node : (nodes : List Bytes) → AllNodes nodes → is_ascii (after_node nodes) ≡ true
unfolding after_node
is_ascii-after_node [] h = refl
is_ascii-after_node (node ∷ nodes) h =
    rw (is_ascii-append node (after_node nodes), plain_ascii node h.0.1)
      (is_ascii-after_node nodes h.1)

trimmed-plain :
    (node : Bytes) → is_nil node ≡ false → is_plain node ≡ true → trim_right (trim_left node) ≡ node
trimmed-plain node h p =
    let left : trim_left node ≡ node =
      ap trim_left (sym (append-nil node)) ∙ trim_left-plain node [] h p ∙ append-nil node in
    let empty : trim_right [] ≡ [] = unfold trim_right in refl in
    rw left (
      ap trim_right (sym (append-nil node))
      ∙ trim_right-plain node [] p
      ∙ ap (◌++◌ node) empty
      ∙ append-nil node)

module _ ⦃r : Runtime⦄ where
  trim_space-plain : (node : Bytes) → IsNode node → trim_space node ≡ node
  unfolding trim_space
  trim_space-plain node (h, p) = rw (plain_ascii node p) (trimmed-plain node h p)

  trim_space-blank : (node : Bytes) → IsNode node → trim_space (b' ' ∷ node) ≡ node
  unfolding trim_space trim_left is_space
  trim_space-blank node (h, p) = rw (plain_ascii node p) (trimmed-plain node h p)

  nodes_of-cons :
      (part : Bytes) (parts : List Bytes)
      → nodes_of (part ∷ parts) ≡ nodes_of (part ∷ []) ++ nodes_of parts
  unfolding nodes_of
  nodes_of-cons part parts = ground arith

  nodes_of_one : (node : Bytes) → IsNode node → nodes_of ((b' ' ∷ node) ∷ []) ≡ node ∷ []
  unfolding nodes_of
  nodes_of_one node h = rw (trim_space-blank node h, h.0) refl

  nodes_of_first : (node : Bytes) → IsNode node → nodes_of (node ∷ []) ≡ node ∷ []
  unfolding nodes_of
  nodes_of_first node h = rw (trim_space-plain node h, h.0) refl

  nodes_of-split :
      (part : Bytes) (nodes : List Bytes)
      → contains part b',' ≡ false
      → AllNodes nodes
      → nodes_of (split (part ++ after_node nodes) b',') ≡ nodes_of (part ∷ []) ++ nodes
  unfolding after_node
  nodes_of-split part [] c h =
      rw (append-nil part, split_one part c) (sym (append-nil (nodes_of (part ∷ []))))
  nodes_of-split part (node ∷ nodes) c h =
      rw
        (
          split-append part ((b' ' ∷ node) ++ after_node nodes) c,
          nodes_of-cons part (split ((b' ' ∷ node) ++ after_node nodes) b','),
          nodes_of-split (b' ' ∷ node) nodes (blank_contains node h.0) h.1,
          nodes_of_one node h.0,
        )
        refl

  trim_space-join :
      (nodes : List Bytes) → AllNodes nodes → trim_space (join nodes ++ line_feed) ≡ join nodes
  unfolding trim_space join
  trim_space-join [] h = unfold trim_left trim_right is_space in refl
  trim_space-join (node ∷ nodes) h =
      let text = (node ++ after_node nodes) ++ line_feed in
      let ascii : is_ascii text ≡ true =
        rw
          (
            is_ascii-append (node ++ after_node nodes) line_feed,
            is_ascii-append node (after_node nodes),
            plain_ascii node h.0.1,
            is_ascii-after_node nodes h.1,
          )
          refl in
      let assoc = append_assoc node (after_node nodes) line_feed in
      let left : trim_left text ≡ node ++ (after_node nodes ++ line_feed) =
        ap trim_left assoc ∙ trim_left-plain node (after_node nodes ++ line_feed) h.0.0 h.0.1 in
      rw (ascii, left)
        (trim_right-plain node (after_node nodes ++ line_feed) h.0.1
          ∙ ap (◌++◌ node) (trim_right-after_node nodes h.1))

  parse_nodes-join :
      (nodes : List Bytes) → AllNodes nodes → parse_nodes (join nodes ++ line_feed) ≡ nodes
  unfolding parse_nodes
  parse_nodes-join [] h =
      rw (trim_space-join [] tt)
        (unfold join split nodes_of trim_space trim_left trim_right in refl)
  parse_nodes-join (node ∷ nodes) h = rw (trim_space-join (node ∷ nodes) h) (
      unfold join in
      nodes_of-split node nodes (plain_contains node h.0.1) h.1
      ∙ ap (λ (l : List Bytes). l ++ nodes) (nodes_of_first node h.0))

  -- The text that the dialog of zenity or kdialog shows for the default nodes, entered as it stands and ended by a line feed, gives
  -- these nodes back, and so does an empty answer, or none, on the terminal; a cancelled dialog gives none.
  -- A node is ASCII text with no white space and no comma, and is not empty.
  pub show_node_config_dialog-join :
      (nodes : List Bytes)
      → AllNodes nodes
      → (show_node_config_dialog zenity nodes (some (join nodes ++ line_feed)) ≡ nodes)
        × (show_node_config_dialog kdialog nodes (some (join nodes ++ line_feed)) ≡ nodes)
        × (show_node_config_dialog zenity nodes none ≡ [])
        × (show_node_config_dialog kdialog nodes none ≡ [])
        × (show_node_config_dialog terminal nodes (some []) ≡ nodes)
        × (show_node_config_dialog terminal nodes none ≡ nodes)
  unfolding show_node_config_dialog terminal_node_prompt
  show_node_config_dialog-join nodes h =
      (parse_nodes-join nodes h, parse_nodes-join nodes h, refl, refl, refl, refl)
