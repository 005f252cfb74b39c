-- ===== src/Skl.antt =====
-- The statements of the query language: skl/ast.go.
pub mod Keywords
pub mod Scanner
pub mod Parser
use kappa.Base.{Bytes, codes, ◌++◌, Bool, true, false, not, contains, nat_eq}
use kappa.Text.{dot}

pub data NodeType : Type 0 where
  use_namespace_type create_namespace_type drop_namespace_type show_namespace_type : NodeType

pub data Statement : Type 0 where
  use_statement : Bytes → Statement
  create_namespace_statement : Bytes → Statement
  drop_namespace_statement : Bytes → Statement
  show_namespaces_statement : Statement

unfoldable pub node_type : Statement → NodeType
node_type (use_statement name) = use_namespace_type
node_type (create_namespace_statement name) = create_namespace_type
node_type (drop_namespace_statement name) = drop_namespace_type
node_type show_namespaces_statement = show_namespace_type

unfoldable pub required_permissions : Statement → Bytes
required_permissions (use_statement name) = codes ""
required_permissions (create_namespace_statement name) = codes "create.namespace"
required_permissions (drop_namespace_statement name) = codes "drop.namespace"
required_permissions show_namespaces_statement = codes "show.namespaces"

-- `String()`
unfoldable pub to_string : Statement → Bytes
to_string (use_statement name) = codes "USE " ++ name
to_string (create_namespace_statement name) = codes "CREATE NAMESPACE " ++ name
to_string (drop_namespace_statement name) = codes "DROP NAMESPACE " ++ name
to_string show_namespaces_statement = codes "SHOW NAMESPACES"

-- `!strings.Contains(s.name, ".")`
unfoldable pub is_root_namespace : Bytes → Bool
is_root_namespace name = not (contains dot name)
