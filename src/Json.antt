-- ===== src/Json.antt =====
-- `Value` of the serde_json crate, with the numbers as a parameter. An object is the list of its
-- fields, in the order of its iterator.
use lumenqraph.Base.{Bool}
use lumenqraph.Base.Str.{Str}

mutual
  pub data Json (Number : Type 0) : Type 0 where
    null : Json Number
    boolean : Bool → Json Number
    number : Number → Json Number
    string : Str → Json Number
    array : Items Number → Json Number
    object : Fields Number → Json Number

  pub data Items (Number : Type 0) : Type 0 where
    no_items : Items Number
    item : Json Number → Items Number → Items Number

  pub data Fields (Number : Type 0) : Type 0 where
    no_fields : Fields Number
    field : Str → Json Number → Fields Number → Fields Number
