-- ===== src/Service/Dialogs.antt =====
-- internal/service/dialogs_linux.go and dialogs_darwin.go: what the answers of the dialogs mean. What a tool
-- prints is a parameter, `none` when it fails or the user cancels; the list of nodes nil is the empty list.
use dnn_daemon.Common.{
  ℕ, Bool, not, Option, none, some, List, [], ◌∷◌, ◌++◌, ◌==◌, if◌then◌else◌, is_nil,
}
use dnn_daemon.Common.Bytes.{Bytes, codes, equal}
use dnn_daemon.Runtime.{Runtime}
use dnn_daemon.Text.{trim_space, split}

pub data Action : Type 0 where
  action_cancel action_install action_uninstall : Action

-- The tool that is there: zenity, else kdialog, else the terminal.
pub data Tool : Type 0 where
  zenity kdialog terminal : Tool

abbrev has_tool : Bool → Bool → Tool
has_tool has_zenity has_kdialog =
    if has_zenity then zenity else if has_kdialog then kdialog else terminal

-- `strings.Join(nodes, ", ")`
unfoldable pub after_node : List Bytes → Bytes
after_node [] = []
after_node (node ∷ nodes) = b',' ∷ (b' ' ∷ (node ++ after_node nodes))

unfoldable pub join : List Bytes → Bytes
unfolding after_node
join [] = []
join (node ∷ nodes) = node ++ after_node nodes

abbrev answer : Bytes → Bytes → Bytes → Action
answer install uninstall result =
    if equal result install
    then action_install
    else if equal result uninstall
    then action_uninstall
    else action_cancel

-- The choice that the terminal reads, with `none` for what is not a number.
abbrev numbered : Option ℕ → Action
numbered none = action_cancel
numbered (some choice) =
    if choice == 1 then action_install else if choice == 2 then action_uninstall else action_cancel

module _ ⦃r : Runtime⦄ where
  abbrev listed : Bytes → Bytes → Option Bytes → Action
  listed install uninstall none = action_cancel
  listed install uninstall (some output) = answer install uninstall (trim_space output)

  -- By the output of the tool, or the number that the terminal reads.
  unfoldable pub show_main_action_dialog : Tool → Option Bytes → Option ℕ → Action
  unfolding equal
  show_main_action_dialog zenity output choice = listed (codes "Install") (codes "Uninstall") output
  show_main_action_dialog kdialog output choice =
      listed (codes "install") (codes "uninstall") output
  show_main_action_dialog terminal output choice = numbered choice

  unfoldable pub nodes_of : List Bytes → List Bytes
  nodes_of [] = []
  nodes_of (part ∷ parts) =
      let rest = nodes_of parts in
      if not (is_nil (trim_space part)) then trim_space part ∷ rest else rest

  unfoldable pub parse_nodes : Bytes → List Bytes
  unfolding nodes_of
  parse_nodes output = nodes_of (split (trim_space output) b',')

  abbrev entered : Option Bytes → List Bytes
  entered none = []
  entered (some output) = parse_nodes output

  -- By the word that the terminal reads.
  unfoldable pub terminal_node_prompt : List Bytes → Option Bytes → List Bytes
  unfolding parse_nodes
  terminal_node_prompt default_nodes none = default_nodes
  terminal_node_prompt default_nodes (some input) =
      if is_nil input then default_nodes else parse_nodes input

  unfoldable pub show_node_config_dialog : Tool → List Bytes → Option Bytes → List Bytes
  unfolding parse_nodes terminal_node_prompt
  show_node_config_dialog zenity default_nodes output = entered output
  show_node_config_dialog kdialog default_nodes output = entered output
  show_node_config_dialog terminal default_nodes output = terminal_node_prompt default_nodes output

-- `strings.ReplaceAll(s, x, by)` for a one-byte `x`
unfoldable pub replace_all : ℕ → Bytes → Bytes → Bytes
replace_all x by [] = []
replace_all x by (c ∷ s) = let rest = replace_all x by s in if c == x then by ++ rest else c ∷ rest

unfoldable pub escape_apple_script : Bytes → Bytes
unfolding replace_all
escape_apple_script s =
    replace_all b'"' (b'\\' ∷ b'"' ∷ []) (replace_all b'\\' (b'\\' ∷ b'\\' ∷ []) s)
