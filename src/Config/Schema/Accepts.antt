-- ===== src/Config/Schema/Accepts.antt =====
-- What a mapping must look like for `validateMapping` to accept it.
use upag.Base.{
  String, List, [], ◌∷◌, Option, none, some, string_eq, Bool-cases, ◌≡◌, ◌↔◌, refl, inl, inr, arith,
}
use upag.Config.Texts.{contains, Absent, contains-Absent_iff}
use upag.Config.Schema.{
  Node, Entries, SchemaValidator, Fields, scalar, alias, sequence, mapping, document, no_entries,
  entry, join_path, field_of, run_validator, or_else, judge_entry, validate_entries,
  validate_mapping,
}

-- The key is a field of the mapping, was not seen, and its value passes the field's validator.
abbrev pub KeyAccepts : Fields → String → List String → String → Node → Type 0
KeyAccepts fields path seen key value =
    (v : Option SchemaValidator) × (field_of key fields ≡ some v)
    × Absent key seen
    × (run_validator v value (join_path path key) ≡ none)

-- Every key is a plain text, a field of the mapping, and stands once; every value passes the
-- validator of its field.
abbrev pub EntriesAccept : Fields → String → List String → Entries → Type 0
EntriesAccept fields path seen no_entries = Unit
EntriesAccept fields path seen (entry (scalar key) value es) =
    KeyAccepts fields path seen key value × EntriesAccept fields path (key ∷ seen) es
EntriesAccept fields path seen (entry key value es) = ⊥

abbrev pub MappingAccepts : Fields → String → Node → Type 0
MappingAccepts fields path (mapping es) = EntriesAccept fields path [] es
MappingAccepts fields path _ = Unit

or_else-none : (a b : Option String) → or_else a b ≡ none → (a ≡ none) × (b ≡ none)
or_else-none none b h = (refl, h)
or_else-none (some e) b h = ground arith

judge_entry-none :
    (path : String) (seen : List String) (key : String) (value : Node) (rest : Option String)
    (found : Option (Option SchemaValidator))
    → judge_entry path seen key value rest found ≡ none
    → ((v : Option SchemaValidator) × (found ≡ some v)
        × Absent key seen
        × (run_validator v value (join_path path key) ≡ none))
      × (rest ≡ none)
judge_entry-none path seen key value rest none h = ground arith
judge_entry-none path seen key value rest (some v) h = elim (Bool-cases (contains key seen)) [
  | inl e ↦ ground arith
  | inr e ↦
      let both = or_else-none (run_validator v value (join_path path key)) rest (ground arith) in
      ((v, refl, (contains-Absent_iff key seen).0 e, both.0), both.1)
]

accepted :
    (fields : Fields) (path : String) (seen : List String) (es : Entries)
    → validate_entries fields path seen es ≡ none
    → EntriesAccept fields path seen es
unfolding validate_entries
accepted fields path seen no_entries h = tt
accepted fields path seen (entry (scalar key) value es) h =
    let both =
      judge_entry-none path seen key value (validate_entries fields path (key ∷ seen) es)
        (field_of key fields) h in
    (both.0, accepted fields path (key ∷ seen) es both.1)
accepted fields path seen (entry (alias n) value es) h = ground arith
accepted fields path seen (entry (sequence n) value es) h = ground arith
accepted fields path seen (entry (mapping n) value es) h = ground arith
accepted fields path seen (entry (document n) value es) h = ground arith

accepts :
    (fields : Fields) (path : String) (seen : List String) (es : Entries)
    → EntriesAccept fields path seen es
    → validate_entries fields path seen es ≡ none
unfolding validate_entries
accepts fields path seen no_entries h = refl
accepts fields path seen (entry (scalar key) value es) ((v, known, fresh, passes), later) = rw (
  known,
  (contains-Absent_iff key seen).1 fresh,
  passes,
  accepts fields path (key ∷ seen) es later,
)
accepts fields path seen (entry (alias n) value es) h = absurd h
accepts fields path seen (entry (sequence n) value es) h = absurd h
accepts fields path seen (entry (mapping n) value es) h = absurd h
accepts fields path seen (entry (document n) value es) h = absurd h

-- `validateMapping` reports no error exactly for what is no mapping and for a mapping each of whose
-- keys is a plain text, one of the fields, and given once, while each value passes the validator of
-- its field.
pub validate_mapping-accepts_iff :
    (n : Node) (path : String) (fields : Fields)
    → (validate_mapping n path fields ≡ none) ↔ MappingAccepts fields path n
unfolding validate_mapping
validate_mapping-accepts_iff (mapping es) path fields =
    (accepted fields path [] es, accepts fields path [] es)
validate_mapping-accepts_iff (scalar s) path fields = (λ _. tt, λ _. refl)
validate_mapping-accepts_iff (alias a) path fields = (λ _. tt, λ _. refl)
validate_mapping-accepts_iff (sequence s) path fields = (λ _. tt, λ _. refl)
validate_mapping-accepts_iff (document d) path fields = (λ _. tt, λ _. refl)
