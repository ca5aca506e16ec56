-- ===== src/Json.antt =====
-- What encoding/json decodes into a Go `any`: null, a Boolean, a number, a string, a `[]any` or a
-- `map[string]any`. The decoder itself is a parameter of the definitions that call it. A number is
-- kept as its literal. An object lists its entries in the order in which a loop visits them.
use zero_trust_service.Common.{List, [], ◌∷◌, String, Bool}

mutual
  pub data Json : Type 0 where
    null : Json
    bool : Bool → Json
    number : String → Json
    str : String → Json
    arr : Elems → Json
    obj : Fields → Json

  pub data Elems : Type 0 where
    nil : Elems
    cons : Json → Elems → Elems

  pub data Fields : Type 0 where
    end : Fields
    field : String → Json → Fields → Fields

abbrev pub fields : Fields → List (String × Json)
fields Fields.end = []
fields (Fields.field k v fs) = (k, v) ∷ fields fs

abbrev pub elems : Elems → List Json
elems Elems.nil = []
elems (Elems.cons v vs) = v ∷ elems vs
