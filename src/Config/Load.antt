-- ===== src/Config/Load.antt =====
-- `Parse` and `LoadFile` of internal/config/config.go. The YAML parser and the reading of a file are
-- given.
pub mod Parsed
use upag.Base.{
  String, Bool, List, [], Option, none, some, ℤ, Fallible, ok, err, ◌>>=◌, if◌then◌else◌, join,
  ◌<>◌, Bool-cases, ◌≡◌, ◌≢◌, ◌↔◌, refl, ap, inl, inr, arith,
}
use upag.Config.{Config, is_nil}
use upag.Config.Decoded.{RawConfig, decoded}
use upag.Config.Defaults.{apply_defaults}
use upag.Config.Schema.{Node}
use upag.Config.Sections.{validate_config_schema}
use upag.Config.Validate.{GoLibrary}
use upag.Config.Validate.Whole.{validate}
use upag.Config.Valid.Whole.{ValidConfig, validate_iff}

-- `yaml.Unmarshal` into a node, `root.Decode(&cfg)` up to the sections that decode themselves, and
-- the readings of a node as an `int` and as a text.
pub record YamlLibrary : Type 0 where
  pub unmarshal : String → Fallible String Node
  pub decode : Node → Fallible String RawConfig
  pub decode_int : Node → Option ℤ
  pub decode_string : Node → Option String

abbrev pub in_context {ℓ} : {A : Type ℓ} → String → Fallible String A → Fallible String A
in_context context (ok a) = ok a
in_context context (err e) = err (context <> e)

abbrev pub refused {ℓ} : {A : Type ℓ} → Option String → A → Fallible String A
refused none a = ok a
refused (some e) a = err e

-- `errors.Join`: nil for no errors, otherwise their texts on lines of their own.
abbrev pub joined {ℓ} : {A : Type ℓ} → List String → A → Fallible String A
joined errs a = if is_nil errs then ok a else err (join "\n" errs)

module _ (yaml : YamlLibrary) (go : GoLibrary) where
  abbrev pub schema_error : Node → Option String
  schema_error root = validate_config_schema yaml.decode_int yaml.decode_string root

  unfoldable pub parse : String → Fallible String Config
  parse data' = do
    root ← in_context "parse config: " (yaml.unmarshal data')
    checked ← in_context "parse config: " (refused (schema_error root) root)
    raw ← in_context "parse config: " (yaml.decode checked)
    let c = apply_defaults (decoded raw)
    joined (validate go c) c

  unfoldable pub load_file : (String → Fallible String String) → String → Fallible String Config
  unfolding parse
  load_file read path =
      in_context ("read config " <> (go.quote path <> ": ")) (read path) >>= λ text. parse text

  -- How a configuration comes about: the text is a YAML document of the known shape, which is
  -- decoded and completed by the defaults, and the outcome is valid.
  pub record Loads (text : String) (c : Config) : Type 0 where
    pub root : Node
    pub raw : RawConfig
    pub unmarshals : yaml.unmarshal text ≡ ok root
    pub shaped : schema_error root ≡ none
    pub decodes : yaml.decode root ≡ ok raw
    pub completed : apply_defaults (decoded raw) ≡ c
    pub valid : ValidConfig go c
