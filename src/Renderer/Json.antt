-- ===== src/Renderer/Json.antt =====
-- Values of the type map[string]interface{} that the renderers build.
use shedpilot.Common.{String, Bool, Option, none, some, List, [], ◌∷◌, ℤ, ◌==◌, if◌then◌else◌}
use shedpilot.Common.Dict.{Dict}

mutual
  pub data Json (F : Type 0) : Type 0 where
    text : String → Json F
    flag : Bool → Json F
    integer : ℤ → Json F
    number : F → Json F
    items : Items F → Json F
    fields : Fields F → Json F

  pub data Items (F : Type 0) : Type 0 where
    last : Items F
    item : Json F → Items F → Items F

  pub data Fields (F : Type 0) : Type 0 where
    end : Fields F
    field : String → Json F → Fields F → Fields F

module _ {F : Type 0} where
  abbrev items_of : List (Json F) → Items F
  items_of [] = last
  items_of (x ∷ xs) = item x (items_of xs)

  abbrev fields_of : Dict (Json F) → Fields F
  fields_of [] = end
  fields_of (x ∷ xs) = field x.0 x.1 (fields_of xs)

  abbrev pub array : List (Json F) → Json F
  array xs = items (items_of xs)

  abbrev pub object : Dict (Json F) → Json F
  object xs = fields (fields_of xs)

  abbrev pub texts : Dict String → Dict (Json F)
  texts [] = []
  texts (x ∷ xs) = (x.0, text x.1) ∷ texts xs

  -- The member of an object, none for what is no object.
  abbrev find : String → Fields F → Option (Json F)
  find key end = none
  find key (field k x rest) = if k == key then some x else find key rest

  abbrev pub member : String → Json F → Option (Json F)
  member key (fields xs) = find key xs
  member key (text x) = none
  member key (flag x) = none
  member key (integer x) = none
  member key (number x) = none
  member key (items x) = none
