-- ===== src/Service/Boxes.antt =====
-- internal/service/dialogs_windows.go: what the answers of the boxes mean. The button of a message box, and
-- the output of the script that shows an input box, are parameters; the list of nodes nil is the empty list.
use dnn_daemon.Common.{
  ℕ, ◌≡◌, Bool, true, false, not, Option, none, some, List, [], ◌∷◌, ◌==◌, if◌then◌else◌, is_nil,
  arith,
}
use dnn_daemon.Common.Bytes.{Bytes, codes, equal}
use dnn_daemon.Runtime.{Runtime}
use dnn_daemon.Text.{trim_space, split}
use dnn_daemon.Service.Dialogs.{
  Action, action_cancel, action_install, action_uninstall, nodes_of, replace_all,
}

abbrev id_yes : ℕ
id_yes = 6

abbrev id_no : ℕ
id_no = 7

unfoldable pub show_main_action_dialog : ℕ → Action
show_main_action_dialog result =
    if result == id_yes
    then action_install
    else if result == id_no
    then action_uninstall
    else action_cancel

abbrev or_nodes : List Bytes → List Bytes → List Bytes
or_nodes default_nodes nodes = if is_nil nodes then default_nodes else nodes

module _ ⦃r : Runtime⦄ where
  abbrev answered : List Bytes → Bytes → List Bytes
  answered default_nodes result =
      if equal result (codes "CANCELLED")
      then []
      else or_nodes default_nodes (nodes_of (split result b','))

  abbrev printed : List Bytes → Option Bytes → List Bytes
  printed default_nodes none = default_nodes
  printed default_nodes (some output) = answered default_nodes (trim_space output)

  -- By whether the script is written, and by its output.
  unfoldable pub show_node_config_dialog : Bool → List Bytes → Option Bytes → List Bytes
  unfolding nodes_of equal
  show_node_config_dialog writes default_nodes output =
      if not writes then default_nodes else printed default_nodes output

  abbrev is_cancelled : Bool → Option Bytes → Bool
  is_cancelled false output = false
  is_cancelled true none = false
  is_cancelled true (some output) = equal (trim_space output) (codes "CANCELLED")

  -- With default nodes, the dialog gives no nodes exactly when it was cancelled.
  show_node_config_dialog-is_cancelled :
      (writes : Bool) (default_nodes : List Bytes) (output : Option Bytes)
      → is_nil default_nodes ≡ false
      → is_nil (show_node_config_dialog writes default_nodes output) ≡ is_cancelled writes output
  unfolding show_node_config_dialog
  show_node_config_dialog-is_cancelled false default_nodes output h = h
  show_node_config_dialog-is_cancelled true default_nodes none h = h
  show_node_config_dialog-is_cancelled true default_nodes (some output) h = ground (arith, h)

-- `escapeVBString`
unfoldable pub escape_vb_string : Bytes → Bytes
unfolding replace_all
escape_vb_string s = replace_all b'"' (b'"' ∷ b'"' ∷ []) s
