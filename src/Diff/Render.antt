-- ===== src/Diff/Render.antt =====
-- The rendered signatures of diff.rs: `function_sigs`, `event_sigs` and `type_sigs`.
use lumenqraph.Base.{List, [], ◌∷◌, ◌++◌, map, is_nil, if◌then◌else◌}
use lumenqraph.Base.Str.{Str, lit, join}
use lumenqraph.Base.Decimal.{decimal}
use lumenqraph.Base.Maps.{Map, insert}
use lumenqraph.Spec.{
  Field, FunctionSpec, EventParam, EventSpec, UdtStruct, UnionCase, UdtUnion, EnumCase, UdtEnum,
  ErrorCase, UdtErrorEnum, ContractSpec,
}

-- "name: type".
unfoldable pub render_field : Field → Str
render_field f = f.name ++ lit ": " ++ f.type_name

unfoldable pub render_outputs : List Str → Str
render_outputs [] = lit "void"
render_outputs (one ∷ []) = one
render_outputs many = lit "(" ++ join (lit ", ") many ++ lit ")"

unfoldable pub function_inputs : FunctionSpec → List Str
function_inputs f = map render_field f.inputs

unfoldable pub function_sig : FunctionSpec → Str
function_sig f =
    f.name
    ++ lit "("
    ++ join (lit ", ") (function_inputs f)
    ++ lit ") -> "
    ++ render_outputs f.outputs

-- The two maps of `function_sigs`.
unfoldable pub function_sigs : List FunctionSpec → Map Str → Map Str
function_sigs [] m = m
function_sigs (f ∷ fs) m = function_sigs fs (insert f.name (function_sig f) m)

unfoldable pub function_params : List FunctionSpec → Map (List Str) → Map (List Str)
function_params [] m = m
function_params (f ∷ fs) m = function_params fs (insert f.name (function_inputs f) m)

unfoldable pub render_event_param : EventParam → Str
render_event_param p = p.name ++ lit ": " ++ p.type_name ++ lit " @" ++ p.location

unfoldable pub event_sig : EventSpec → Str
event_sig e =
    e.name
    ++ lit "("
    ++ join (lit ", ") (map render_event_param e.params)
    ++ lit ") ["
    ++ e.data_format
    ++ lit "]"

unfoldable pub event_sigs : List EventSpec → Map Str → Map Str
event_sigs [] m = m
event_sigs (e ∷ es) m = event_sigs es (insert e.name (event_sig e) m)

-- "kind name { cases }".
unfoldable pub render_type : Str → Str → List Str → Str
render_type kind name cases =
    kind ++ lit " " ++ name ++ lit " { " ++ join (lit ", ") cases ++ lit " }"

unfoldable pub render_case : UnionCase → Str
render_case c =
    if is_nil c.type_names
    then c.name
    else c.name ++ lit "(" ++ join (lit ", ") c.type_names ++ lit ")"

unfoldable pub render_enum_case : EnumCase → Str
render_enum_case c = c.name ++ lit " = " ++ decimal c.value

unfoldable pub render_error_case : ErrorCase → Str
render_error_case c = c.name ++ lit " = " ++ decimal c.code

unfoldable pub struct_sigs : List UdtStruct → Map Str → Map Str
struct_sigs [] m = m
struct_sigs (s ∷ ss) m =
    struct_sigs ss (insert s.name (render_type (lit "struct") s.name (map render_field s.fields)) m)

unfoldable pub union_sigs : List UdtUnion → Map Str → Map Str
union_sigs [] m = m
union_sigs (u ∷ us) m =
    union_sigs us (insert u.name (render_type (lit "union") u.name (map render_case u.cases)) m)

unfoldable pub enum_sigs : List UdtEnum → Map Str → Map Str
enum_sigs [] m = m
enum_sigs (e ∷ es) m =
    enum_sigs es (insert e.name (render_type (lit "enum") e.name (map render_enum_case e.cases)) m)

unfoldable pub error_sigs : List UdtErrorEnum → Map Str → Map Str
error_sigs [] m = m
error_sigs (e ∷ es) m =
    error_sigs es
      (insert e.name (render_type (lit "error enum") e.name (map render_error_case e.cases)) m)

-- One namespace for structs, unions, enums and error enums.
unfoldable pub type_sigs : ContractSpec → Map Str
type_sigs spec =
    error_sigs spec.errors
      (enum_sigs spec.enums (union_sigs spec.unions (struct_sigs spec.structs [])))
