-- ===== src/Contracts/Value.antt =====
-- The values that the services exchange. A number is the text that JSON.stringify prints for it.
use ehfconcept.Prelude.{Bool, String}

mutual
  pub data Value : Type 0 where
    undefined null : Value
    boolean : Bool → Value
    number : String → Value
    string : String → Value
    array : Items → Value
    object : Fields → Value

  pub data Items : Type 0 where
    nil : Items
    item : Value → Items → Items

  -- The properties of an object in the order in which `Object.entries` lists them.
  pub data Fields : Type 0 where
    end : Fields
    field : String → Value → Fields → Fields
