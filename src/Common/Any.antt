-- ===== src/Common/Any.antt =====
-- The values of Go's `any` that decoding a JSON object gives, or that the code's own types add.
-- A number is kept by its text.
use Prim.Native.String.{String}
use mathlib.Core.Bool.{Bool}
use mathlib.Core.Option.{Option, none, some}
use mathlib.Core.List.{List, [], ◌∷◌}

mutual
  pub data Any : Type 0 where
    null : Any
    boolean : Bool → Any
    number : String → Any
    str : String → Any
    strs : List String → Any
    arr : Items → Any
    obj : Fields → Any

  -- `[]any`
  pub data Items : Type 0 where
    nil : Items
    cons : Any → Items → Items

  -- `map[string]any`
  pub data Fields : Type 0 where
    end : Fields
    field : String → Any → Fields → Fields

abbrev pub items : Items → List Any
items nil = []
items (cons v vs) = v ∷ items vs

abbrev pub fields : Fields → List (String × Any)
fields end = []
fields (field k v fs) = (k, v) ∷ fields fs

-- The type assertion `v.(string)`
abbrev pub as_string : Any → Option String
as_string (str s) = some s
as_string _ = none

-- A loop that asserts each element of a `[]any` to be a text, and gives up at the first other.
unfoldable pub all_strings : List Any → Option (List String)
all_strings [] = some []
all_strings (str s ∷ vs) = elim (all_strings vs) [ none ↦ none | some ss ↦ some (s ∷ ss) ]
all_strings (_ ∷ vs) = none
