-- ===== src/S3/Xml.antt =====
-- pugixml and Boost.Describe as interfaces: what the parsers of lib/aws/s3 call.
use s3cpp.Prelude.{ℕ, ◌≡◌, ◌≢◌, ◌↔◌, Bool, true, Option, none, some, List, [], ◌∷◌, Text}

-- `pugi::xml_parse_status`; the codes that the program does not name are `failed`.
pub data ParseStatus : Type 0 where
  status_ok status_file_not_found : ParseStatus
  failed : ℕ → ParseStatus

-- A node may be the null node. `child_value` is never a null pointer.
pub record Pugi : Type 1 where
  pub Node : Type 0
  pub load_buffer : Text → ParseStatus × Node
  pub is_null : Node → Bool
  pub child : Node → Text → Node
  pub children : Node → Text → List Node
  pub child_value : Node → Text → Text

-- The documented behaviour: a node has a child of a name unless its children of that name are none,
-- and a child that is not there has the empty value.
pub record IsPugi (x : Pugi) : Type 0 where
  pub child-null :
      (n : x.Node) (name : Text) → (x.is_null (x.child n name) ≡ true) ↔ (x.children n name ≡ [])
  pub child_value-null :
      (n : x.Node) (name : Text) → x.is_null (x.child n name) ≡ true → x.child_value n name ≡ []

-- `boost::describe::enum_from_string`, given the names and values of the enumerators.
pub record Describe : Type 1 where
  pub enum_from_string : {E : Type 0} → List (Text × E) → Text → Option E

-- It finds a name that is listed first.
pub record IsDescribe (d : Describe) : Type 1 where
  pub enum-first :
      {E : Type 0} (name : Text) (e : E) (rest : List (Text × E))
      → d.enum_from_string ((name, e) ∷ rest) name ≡ some e
  pub enum-later :
      {E : Type 0} (name other : Text) (e : E) (rest : List (Text × E))
      → name ≢ other
      → d.enum_from_string ((name, e) ∷ rest) other ≡ d.enum_from_string rest other
  pub enum-none : {E : Type 0} (name : Text) → d.enum_from_string {E = E} [] name ≡ none
