-- ===== src/Resolver/Json.antt =====
-- Go's decoded JSON values, `interface{}`, and the type assertions that the resolver makes on them. A
-- float64 is given by its bits.
use dnn_daemon.Common.{ℕ, Bool, Option, none, some, List, [], ◌∷◌, if◌then◌else◌}
use dnn_daemon.Common.Bytes.{Bytes, equal}

mutual
  pub data Json : Type 0 where
    null : Json
    bool : Bool → Json
    num : ℕ → Json
    str : Bytes → Json
    arr : Items → Json
    obj : Fields → Json

  pub data Items : Type 0 where
    nil : Items
    cons : Json → Items → Items

  pub data Fields : Type 0 where
    end : Fields
    field : Bytes → Json → Fields → Fields

-- `m[k]` on a decoded object, which may be the nil map
unfoldable pub get : Bytes → Fields → Option Json
unfolding equal
get k end = none
get k (field j v rest) = let found = get k rest in if equal j k then some v else found

abbrev pub as_string : Option Json → Option Bytes
as_string (some (str s)) = some s
as_string _ = none

abbrev pub as_array : Option Json → Option Items
as_array (some (arr items)) = some items
as_array _ = none

abbrev pub as_object : Option Json → Option Fields
as_object (some (obj fields)) = some fields
as_object _ = none

abbrev pub as_number : Option Json → Option ℕ
as_number (some (num bits)) = some bits
as_number _ = none

-- `s, _ := v.(string)`
abbrev pub string_or_empty : Option Json → Bytes
string_or_empty (some (str s)) = s
string_or_empty _ = []

abbrev pub strings : Items → List Bytes
strings nil = []
strings (cons (str s) items) = s ∷ strings items
strings (cons _ items) = strings items
