-- ===== src/Schemas.antt =====
-- The schemas of requests: syncmaster/schemas/v1. A field of a pydantic class is its name with the
-- kind of the values that it admits; the children list the fields of the classes.
pub mod Auth
pub mod Databases
pub mod Storages
pub mod Connections
pub mod Transfers
use syncmaster.Db.Json.{Json, Items, Dict}
use syncmaster.Prelude.{
  Bool, List, String, ℕ, true, false, ◌&&◌, ◌||◌, ltb, leb, any, str_eq, codes, starts_with, map,
  ◌∷◌, ◌≡◌, [],
}

-- `port` is `int = Field(gt=0, le=65535)`, `params` a dictionary, and `one_of` a `Literal`. The
-- optional ones admit `None` as well.
pub data Kind : Type 0 where
  text port params texts url : Kind
  optional_text optional_port optional_url : Kind
  one_of : List String → Kind

pub record SchemaField : Type 0 where
  pub name : String
  pub kind : Kind

abbrev pub is_text : Json → Bool
is_text (Json.str _) = true
is_text _ = false

abbrev pub is_port : Json → Bool
is_port (Json.int n) = ltb 0 n && leb n 65535
is_port _ = false

abbrev pub is_object : Json → Bool
is_object (Json.obj _) = true
is_object _ = false

abbrev pub are_texts : Items → Bool
are_texts Items.nil = true
are_texts (Items.cons j js) = is_text j && are_texts js

abbrev pub is_list_of_texts : Json → Bool
is_list_of_texts (Json.arr js) = are_texts js
is_list_of_texts _ = false

-- `URL` of syncmaster/schemas/v1/types.py: of the constraints of a URL, the allowed schemes.
abbrev pub is_url : Json → Bool
is_url (Json.str s) =
    starts_with (codes "http://") (codes s) || starts_with (codes "https://") (codes s)
is_url _ = false

abbrev pub is_none : Json → Bool
is_none Json.null = true
is_none _ = false

abbrev pub is_one_of : List String → Json → Bool
is_one_of names (Json.str s) = any (str_eq s) names
is_one_of names _ = false

-- Whether a field of a validated model can have the value.
unfoldable pub admits : Kind → Json → Bool
admits text j = is_text j
admits port j = is_port j
admits params j = is_object j
admits texts j = is_list_of_texts j
admits url j = is_url j
admits optional_text j = is_none j || is_text j
admits optional_port j = is_none j || is_port j
admits optional_url j = is_none j || is_url j
admits (one_of names) j = is_one_of names j

abbrev pub field : String → Kind → SchemaField
field name kind = record { name = name; kind = kind }

-- `model_dump(mode="json")` of a model with the given attributes.
abbrev pub model_dump : List SchemaField → (String → Json) → Dict
model_dump schema attribute = map (λ (f : SchemaField). (f.name, attribute f.name)) schema

-- Whether validation can have given these attributes.
abbrev pub Accepts : List SchemaField → (String → Json) → Type 0
Accepts [] attribute = Unit
Accepts (f ∷ schema) attribute =
    (admits f.kind (attribute f.name) ≡ true) × Accepts schema attribute
