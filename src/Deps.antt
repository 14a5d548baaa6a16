-- ===== src/Deps.antt =====
-- The third-party code that the program calls, as one record of operations with the documented
-- behaviour that the program relies on: boost::asio::ip::address, boost::algorithm and
-- boost::lexical_cast, magic_enum, fmt, and Glib::KeyFile. Every model takes such a record.
pub mod Assoc
use opencattus.Base.{
  ℕ, ◌<◌, ◌^◌, String, ◌≡◌, ◌≢◌, Bool, true, false, ◌&&◌, ◌||◌, Option, none, some, List, [], ◌∷◌,
  All, str_eq, if◌then◌else◌,
}
use opencattus.Base.Text.{◌<>◌, lower, has_char, is_empty}
use opencattus.Base.Decimal.{to_string}

-- The entry whose name is `s`, letters compared without their case.
abbrev pub lookup_lower {ℓ} : {A : Type ℓ} → String → List (String × A) → Option A
lookup_lower s [] = none
lookup_lower s ((name, a) ∷ table) =
    if str_eq (lower name) (lower s) then some a else lookup_lower s table

abbrev pub lookup_exact {ℓ} : {A : Type ℓ} → String → List (String × A) → Option A
lookup_exact s [] = none
lookup_exact s ((name, a) ∷ table) = if str_eq name s then some a else lookup_exact s table

-- A text that a list separated by ", " can hold as one entry.
abbrev pub IsToken : String → Type 0
IsToken s = (is_empty s ≡ false) × (has_char "," s ≡ false) × (has_char " " s ≡ false)

pub record Deps : Type 1 where
  -- boost::asio::ip::address; `unspecified` is the value of `address()`, and `none` is a throw of
  -- boost::system::system_error
  pub Address : Type 0
  pub unspecified : Address
  pub make_address : String → Option Address
  pub address_string : Address → String
  pub is_unspecified : Address → Bool
  pub is_v4 : Address → Bool
  pub to_uint : Address → ℕ
  pub same_address : Address → Address → Bool
  pub make_address-address_string : (a : Address) → make_address (address_string a) ≡ some a
  pub is_unspecified-unspecified : is_unspecified unspecified ≡ true
  pub same_address-refl : (a : Address) → same_address a a ≡ true
  -- boost::split by any of ", " with token_compress_on, boost::join with ", ", and
  -- boost::lexical_cast<std::size_t>, where `none` is a throw of bad_lexical_cast
  pub split_values : String → List String
  pub join_values : List String → String
  pub lexical_cast : String → Option ℕ
  pub join_values-nil : join_values [] ≡ ""
  pub join_values-one : (x : String) → join_values (x ∷ []) ≡ x
  pub join_values-cons :
      (x y : String) (ys : List String)
      → join_values (x ∷ y ∷ ys) ≡ x <> ", " <> join_values (y ∷ ys)
  pub split_values-join_values :
      (xs : List String) → xs ≢ [] → All IsToken xs → split_values (join_values xs) ≡ xs
  -- magic_enum::enum_cast with case_insensitive, over the enumerators with their names
  pub enum_cast : {A : Type 0} → List (String × A) → String → Option A
  pub enum_cast-eq-lookup_lower :
      {A : Type 0} (table : List (String × A)) (s : String)
      → enum_cast table s ≡ lookup_lower s table
  -- the same, case-sensitive
  pub enum_cast_exact : {A : Type 0} → List (String × A) → String → Option A
  pub enum_cast_exact-eq-lookup_exact :
      {A : Type 0} (table : List (String × A)) (s : String)
      → enum_cast_exact table s ≡ lookup_exact s table
  -- fmt's "{:0>{}}": a number, filled up with zeros on the left to a width
  pub pad_number : ℕ → ℕ → String
  -- Glib::KeyFile; `none` is a throw of Glib::KeyFileError
  pub Store : Type 0
  pub get_groups : Store → List String
  pub has_group : Store → String → Bool
  pub has_key : Store → String → String → Option Bool
  pub get_value : Store → String → String → Option String
  pub set_value : Store → String → String → String → Store
  pub get_value-set_value :
      (s : Store) (g k v g' k' : String)
      → get_value (set_value s g k v) g' k'
        ≡ (if str_eq g g' && str_eq k k' then some v else get_value s g' k')
  pub has_group-set_value :
      (s : Store) (g k v g' : String)
      → has_group (set_value s g k v) g' ≡ (str_eq g g' || has_group s g')
  pub has_key-set_value :
      (s : Store) (g k v g' k' : String)
      → has_key (set_value s g k v) g' k' ≡ (
          if str_eq g g'
          then (if str_eq k k'
              then some true
              else (if has_group s g' then has_key s g' k' else some false))
          else has_key s g' k')
  pub has_key-no_group : (s : Store) (g k : String) → has_group s g ≡ false → has_key s g k ≡ none
  pub get_value-no_group :
      (s : Store) (g k : String) → has_group s g ≡ false → get_value s g k ≡ none
