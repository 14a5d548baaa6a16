-- ===== src/KeyFile.antt =====
-- The class KeyFile of src/services/files.cpp, over the operations of Glib::KeyFile.
pub mod View
use opencattus.Base.{
  String, Bool, true, false, Option, none, some, List, [], ◌∷◌, if◌then◌else◌, Result, ok, err,
  ◌>>=◌, or_throw, runtime_error, key_file_error, no_such_entry,
}
use text.Mathlib.Text.{starts_with}
use opencattus.Deps.{Deps}

-- The entries that start with a prefix, in their order.
abbrev pub filter_prefix : String → List String → List String
filter_prefix prefix [] = []
filter_prefix prefix (group ∷ groups) =
    if starts_with group prefix
    then group ∷ filter_prefix prefix groups
    else filter_prefix prefix groups

module _ (d : Deps) where
  unfoldable pub list_all_prefixed_entries : d.Store → String → List String
  list_all_prefixed_entries file prefix = filter_prefix prefix (d.get_groups file)

  -- `getString(group, key)`
  unfoldable pub get_string : d.Store → String → String → Result String
  get_string file group key =
      or_throw (d.get_value file group key) (runtime_error (no_such_entry group key))

  -- `getString(group, key, defaultValue)`: the search for the key throws inside the `try`.
  unfoldable pub get_string_or : d.Store → String → String → String → Result String
  unfolding get_string
  get_string_or file group key default_value = elim (d.has_key file group key) [
    | none ↦ err (runtime_error (no_such_entry group key))
    | some present ↦ if present then get_string file group key else ok default_value
  ]

  -- `getStringOpt`: the search for the key stands before the `try`, so its exception escapes.
  unfoldable pub get_string_opt : d.Store → String → String → Result (Option String)
  unfolding get_string
  get_string_opt file group key = elim (d.has_key file group key) [
    | none ↦ err key_file_error
    | some present ↦ if present then (get_string file group key >>= λ v. ok (some v)) else ok none
  ]

  -- `setString` of a text, and of an optional text.
  abbrev pub set_string : String → String → String → d.Store → d.Store
  set_string group key v file = d.set_value file group key v

  abbrev pub set_string_opt : String → String → Option String → d.Store → d.Store
  set_string_opt group key none file = file
  set_string_opt group key (some v) file = d.set_value file group key v
