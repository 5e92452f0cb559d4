-- ===== src/Spec.antt =====
-- crates/lumenqraph-core/src/spec.rs: the parsed interface of a contract, as far as the diff of
-- two interfaces and the lookups by name read it. The structured XDR types beside each rendered type
-- name, and the doc strings, are left out.
use lumenqraph.Base.{ℕ, List}
use lumenqraph.Base.Str.{Str}

pub record Field : Type 0 where
  pub name : Str
  pub type_name : Str

pub record FunctionSpec : Type 0 where
  pub name : Str
  pub inputs : List Field
  pub outputs : List Str

-- `location` is "topic" or "data".
pub record EventParam : Type 0 where
  pub name : Str
  pub type_name : Str
  pub location : Str

-- `data_format` is "single", "vec" or "map".
pub record EventSpec : Type 0 where
  pub name : Str
  pub prefix_topics : List Str
  pub params : List EventParam
  pub data_format : Str

pub record UdtStruct : Type 0 where
  pub name : Str
  pub fields : List Field

pub record UnionCase : Type 0 where
  pub name : Str
  pub type_names : List Str

pub record UdtUnion : Type 0 where
  pub name : Str
  pub cases : List UnionCase

-- A case of an enum is its name and its discriminant.
pub record EnumCase : Type 0 where
  pub name : Str
  pub value : ℕ

pub record UdtEnum : Type 0 where
  pub name : Str
  pub cases : List EnumCase

pub record ErrorCase : Type 0 where
  pub name : Str
  pub code : ℕ

pub record UdtErrorEnum : Type 0 where
  pub name : Str
  pub cases : List ErrorCase

pub record ContractSpec : Type 0 where
  pub functions : List FunctionSpec
  pub events : List EventSpec
  pub structs : List UdtStruct
  pub unions : List UdtUnion
  pub enums : List UdtEnum
  pub errors : List UdtErrorEnum
