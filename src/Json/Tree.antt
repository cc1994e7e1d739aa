-- ===== src/Json/Tree.antt =====
-- A JSON text without its white space. A number keeps its literal, a string and a key what stands
-- between the quotes.
use test_enclave_newapi.Common.{Bool, List, [], ◌∷◌}
use test_enclave_newapi.Text.{Bytes}

mutual
  pub data Json : Type 0 where
    null : Json
    bool : Bool → Json
    num : Bytes → Json
    str : Bytes → Json
    arr : Items → Json
    obj : Fields → Json

  pub data Items : Type 0 where
    nil : Items
    cons : Json → Items → Items

  pub data Fields : Type 0 where
    end : Fields
    field : Bytes → Json → Fields → Fields

abbrev pub of_fields : List (Bytes × Json) → Fields
of_fields [] = end
of_fields ((k, v) ∷ m) = field k v (of_fields m)

abbrev pub of_items : List Json → Items
of_items [] = nil
of_items (j ∷ js) = cons j (of_items js)

abbrev pub to_items : Items → List Json
to_items nil = []
to_items (cons j js) = j ∷ to_items js
