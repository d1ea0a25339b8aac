-- ===== src/Db/Json.antt =====
-- A JSON value, as the JSON columns and `model_dump(mode="json")` hold it. A number is kept as its
-- text, but for the numbers of rows.
use syncmaster.Prelude.{ℕ, String, Bool, true, false, List, [], ◌∷◌}

mutual
  pub data Json : Type 0 where
    null : Json
    bool : Bool → Json
    int : ℕ → Json
    num : String → Json
    str : String → Json
    arr : Items → Json
    obj : Fields → Json

  pub data Items : Type 0 where
    nil : Items
    cons : Json → Items → Items

  pub data Fields : Type 0 where
    end : Fields
    field : String → Json → Fields → Fields

-- A dictionary with its keys in their order.
abbrev pub Dict : Type 0
Dict = List (String × Json)

unfoldable pub fields_of : Dict → Fields
fields_of [] = end
fields_of ((k, v) ∷ d) = field k v (fields_of d)

unfoldable pub obj_of : Dict → Json
unfolding fields_of
obj_of d = obj (fields_of d)

-- `v is None`
abbrev pub is_null : Json → Bool
is_null null = true
is_null _ = false
