-- ===== src/Explain/Value.antt =====
-- The Python values that the attributes of a file hold.
use kong_coco.Prelude.{ℕ, zero, Bool, true, false, List, Text, is_empty, not}

-- An element of a list: a text, or a `LooseVersion`, held by the text that it was made from.
pub data Item : Type 0 where
  text : Text → Item
  version : Text → Item

pub data Value : Type 0 where
  none_value : Value
  bool : Bool → Value
  int : ℕ → Value
  str : Text → Value
  bytes : Text → Value
  list : List Item → Value
  dict : List (Text × List Item) → Value
  function : Value

-- `bool(v)`
unfoldable pub truthy : Value → Bool
truthy none_value = false
truthy (bool b) = b
truthy (int zero) = false
truthy (int _) = true
truthy (str s) = not (is_empty s)
truthy (bytes s) = not (is_empty s)
truthy (list l) = not (is_empty l)
truthy (dict d) = not (is_empty d)
truthy function = true

-- What a test may be given to compare with.
pub data Literal : Type 0 where
  str : Text → Literal
  int : ℕ → Literal
  bool : Bool → Literal
