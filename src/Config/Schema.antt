-- ===== src/Config/Schema.antt =====
-- `validateConfigSchema` of internal/config/config.go: the shape of the YAML tree before it is
-- decoded. A mapping holds its keys and values in pairs, as the YAML parser builds it.
pub mod Accepts
use upag.Base.{
  ℕ, suc, String, List, [], ◌∷◌, Option, none, some, is_empty, ◌==◌, string_eq, if◌then◌else◌, ◌<>◌,
  decimal,
}
use upag.Config.Texts.{contains}

mutual
  pub data Node : Type 0 where
    scalar : String → Node
    alias : Node → Node
    sequence : Nodes → Node
    mapping : Entries → Node
    document : Nodes → Node

  pub data Nodes : Type 0 where
    no_items : Nodes
    item : Node → Nodes → Nodes

  pub data Entries : Type 0 where
    no_entries : Entries
    entry : Node → Node → Entries → Entries

-- `schemaValidator`; `none` is the nil error.
abbrev pub SchemaValidator : Type 0
SchemaValidator = Node → String → Option String

-- The map literals of the source; a field without a validator has nil.
abbrev pub Fields : Type 0
Fields = List (String × Option SchemaValidator)

abbrev pub format_path : String → String
format_path path = if is_empty path then "<root>" else path

abbrev pub join_path : String → String → String
join_path path field = if is_empty path then field else path <> ("." <> field)

unfoldable pub field_of : String → Fields → Option (Option SchemaValidator)
field_of key [] = none
field_of key ((k, v) ∷ fields) = let rest = field_of key fields in if k == key then some v else rest

abbrev pub run_validator : Option SchemaValidator → Node → String → Option String
run_validator none value path = none
run_validator (some v) value path = v value path

-- `if err := …; err != nil { return err }`, before what follows.
abbrev pub or_else {ℓ} : {A : Type ℓ} → Option A → Option A → Option A
or_else none rest = rest
or_else (some e) rest = some e

-- What an entry is told once its key has been looked up; `rest` is the loop after it.
abbrev pub judge_entry :
    String
    → List String
    → String
    → Node
    → Option String
    → Option (Option SchemaValidator)
    → Option String
judge_entry path seen key value rest none = some ("unknown config field " <> join_path path key)
judge_entry path seen key value rest (some v) =
    if contains key seen
    then some ("duplicate config field " <> join_path path key)
    else or_else (run_validator v value (join_path path key)) rest

unfoldable pub validate_entries : Fields → String → List String → Entries → Option String
unfolding field_of
validate_entries fields path seen no_entries = none
validate_entries fields path seen (entry (scalar key) value es) =
    judge_entry path seen key value (validate_entries fields path (key ∷ seen) es)
      (field_of key fields)
validate_entries fields path seen (entry key value es) =
    some ("config field " <> (format_path path <> " must be a string key"))

unfoldable pub validate_mapping : Node → String → Fields → Option String
unfolding validate_entries
validate_mapping (mapping es) path fields = validate_entries fields path [] es
validate_mapping _ path fields = none

-- A loop over the items of a sequence, with `path[i]` as their paths.
unfoldable pub validate_items : Fields → String → ℕ → Nodes → Option String
unfolding validate_mapping
validate_items fields path i no_items = none
validate_items fields path i (item x items) =
    or_else (validate_mapping x (path <> ("[" <> (decimal i <> "]"))) fields)
      (validate_items fields path (suc i) items)

abbrev pub validate_sequence : Fields → SchemaValidator
validate_sequence fields (sequence items) path = validate_items fields path 0 items
validate_sequence fields _ path = none
