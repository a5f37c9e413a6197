-- ===== src/Config/Load/Parsed.antt =====
-- What `Parse` returns.
use upag.Base.{
  String, List, [], Option, none, some, Fallible, ok, err, ◌>>=◌, ◌≡◌, ◌↔◌, refl, arith,
}
use upag.Config.{Config}
use upag.Config.Decoded.{RawConfig, decoded}
use upag.Config.Defaults.{apply_defaults}
use upag.Config.Schema.{Node}
use upag.Config.Validate.{GoLibrary}
use upag.Config.Validate.Whole.{validate}
use upag.Config.Valid.Whole.{validate_iff}
use upag.Config.Load.{YamlLibrary, in_context, refused, joined, schema_error, parse, Loads}

joined_ok {ℓ} :
    {A : Type ℓ} (errs : List String) (a : A) {b : A}
    → joined errs a ≡ ok b
    → (errs ≡ []) × (joined [] a ≡ ok b)
joined_ok [] a h = (refl, h)
joined_ok (List.◌∷◌ e errs) a h = absurd (ground arith)

ok_inj {ℓ} : {A : Type ℓ} (a b : A) → joined [] a ≡ ok b → a ≡ b
ok_inj a b h = ground (arith, h)

module _ (yaml : YamlLibrary) (go : GoLibrary) (text : String) (c : Config) where
  abbrev completed_from : RawConfig → Fallible String Config
  completed_from raw = let d = apply_defaults (decoded raw) in joined (validate go d) d

  from_raw :
      (root : Node)
      → yaml.unmarshal text ≡ ok root
      → schema_error yaml go root ≡ none
      → (d : Fallible String RawConfig) → yaml.decode root ≡ d
      → (in_context "parse config: " d >>= completed_from) ≡ ok c
      → Loads yaml go text c
  from_raw root u s (ok raw) e h =
      let (none_wrong, same) = joined_ok (validate go (apply_defaults (decoded raw))) _ h in
      let done = ok_inj (apply_defaults (decoded raw)) c same in
      record {
        root = root;
        raw = raw;
        unmarshals = u;
        shaped = s;
        decodes = e;
        completed = done;
        valid = (validate_iff go c).0 (rw (← done) none_wrong);
      }
  from_raw root u s (err x) e h = absurd (ground arith)

  from_shape :
      (root : Node)
      → yaml.unmarshal text ≡ ok root
      → (s : Option String) → schema_error yaml go root ≡ s
      → (in_context "parse config: " (refused s root) >>= λ checked.
          in_context "parse config: " (yaml.decode checked) >>= completed_from)
        ≡ ok c
      → Loads yaml go text c
  from_shape root u none e h = from_raw root u e (yaml.decode root) refl h
  from_shape root u (some x) e h = absurd (ground arith)

  from_text :
      (u : Fallible String Node)
      → yaml.unmarshal text ≡ u
      → (in_context "parse config: " u >>= λ root.
          in_context "parse config: " (refused (schema_error yaml go root) root) >>= λ checked.
          in_context "parse config: " (yaml.decode checked) >>= completed_from)
        ≡ ok c
      → Loads yaml go text c
  from_text (ok root) e h = from_shape root e (schema_error yaml go root) refl h
  from_text (err x) e h = absurd (ground arith)

  Loads-parse : Loads yaml go text c → parse yaml go text ≡ ok c
  unfolding parse
  Loads-parse l =
      let no_errors : validate go (apply_defaults (decoded l.raw)) ≡ [] =
        rw l.completed ((validate_iff go c).1 l.valid) in
      rw (l.unmarshals, l.shaped, l.decodes, no_errors, l.completed)

  -- `Parse` returns a configuration exactly when the text is a YAML document of the known shape
  -- that decodes, and the configuration is what it decodes to, completed by the defaults, and
  -- valid; in all other cases it returns an error.
  pub parse-Loads_iff : (parse yaml go text ≡ ok c) ↔ Loads yaml go text c
  unfolding parse
  parse-Loads_iff = (from_text (yaml.unmarshal text) refl, Loads-parse)
