-- ===== src/Deps/Assoc.antt =====
-- Concrete functions for the third-party code, with which every hypothesis of the models holds:
-- addresses as their texts, a key file as the list of its entries, the latest first.
use Prim.Native.Char.{Char, code}
use opencattus.Base.{
  ℕ, ◌+◌, ◌-◌, ◌*◌, String, ◌≡◌, refl, ◌≢◌, Bool, true, false, ◌&&◌, ◌||◌, Option, none, some, List,
  [], ◌∷◌, All, str_eq, eq_refl, if◌then◌else◌, ◌==◌, has_value, arith, not,
}
use opencattus.Base.Text.{◌<>◌, has_char, is_empty, all_of, is_digit}
use opencattus.Base.Decimal.{to_string, decimal}
use opencattus.Deps.{Deps, IsToken, lookup_lower, lookup_exact}
use text.Mathlib.TextLemmas.{nil-append, cons-append}

abbrev Entry : Type 0
Entry = String × String × String

abbrev has_entry : List Entry → String → Bool
has_entry [] g = false
has_entry ((h, k, v) ∷ s) g = str_eq h g || has_entry s g

abbrev find_entry : List Entry → String → String → Option String
find_entry [] g k = none
find_entry ((h, j, v) ∷ s) g k = if str_eq h g && str_eq j k then some v else find_entry s g k

abbrev key_there : List Entry → String → String → Option Bool
key_there s g k = if has_entry s g then some (has_value (find_entry s g k)) else none

pub find_entry-no_group :
    (s : List Entry) (g k : String) → has_entry s g ≡ false → find_entry s g k ≡ none
find_entry-no_group [] g k h = refl
find_entry-no_group ((h, j, v) ∷ s) g k m = ground (arith, find_entry-no_group s g k)

pub key_there-no_group :
    (s : List Entry) (g k : String) → has_entry s g ≡ false → key_there s g k ≡ none
key_there-no_group s g k m = rw m

pub key_there-set :
    (s : List Entry) (g k v g' k' : String)
    → key_there ((g, k, v) ∷ s) g' k' ≡ (
        if str_eq g g'
        then (if str_eq k k'
            then some true
            else (if has_entry s g' then key_there s g' k' else some false))
        else key_there s g' k')
key_there-set s g k v g' k' = ground (arith, find_entry-no_group s g' k')

abbrev insert_last : String → List String → List String
insert_last g [] = g ∷ []
insert_last g (h ∷ names) = h ∷ insert_last g names

-- One entry for each group, the oldest first.
abbrev group_names : List Entry → List String
group_names [] = []
group_names ((g, k, v) ∷ s) =
    let names = group_names s in if has_entry s g then names else insert_last g names

abbrev is_separator : Char → Bool
is_separator c = code c == code "," || code c == code " "

abbrev push : Char → List String → List String
push c [] = String.◌∷◌ c String.[] ∷ []
push c (x ∷ xs) = String.◌∷◌ c x ∷ xs

-- The pieces of a text; `skipping` behind a separator.
abbrev cut : Bool → String → List String
cut skipping String.[] = String.[] ∷ []
cut skipping (String.◌∷◌ c s) =
    let rest = cut (is_separator c) s in
    if is_separator c then (if skipping then rest else String.[] ∷ rest) else push c rest

abbrev join : List String → String
join [] = ""
join (x ∷ []) = x
join (x ∷ y ∷ ys) = x <> ", " <> join (y ∷ ys)

cut-one : (x : String) → has_char "," x ≡ false → has_char " " x ≡ false → cut false x ≡ x ∷ []
cut-one String.[] h m = refl
cut-one (String.◌∷◌ c s) h m = ground (arith, cut-one s)

cut-comma :
    (x rest : String)
    → has_char "," x ≡ false
    → has_char " " x ≡ false
    → cut false (x <> ", " <> rest) ≡ x ∷ cut true rest
cut-comma String.[] rest h m = rw (nil-append, cons-append, cons-append, nil-append)
cut-comma (String.◌∷◌ c s) rest h m =
    rw (cons-append, cons-append) (ground (arith, cut-comma s rest))

-- A text that does not begin with a separator is cut in the same way behind one.
abbrev starts : String → Bool
starts String.[] = false
starts (String.◌∷◌ c s) = not (is_separator c)

starts-append : (x rest : String) → starts x ≡ true → starts (x <> rest) ≡ true
starts-append String.[] rest h = cc
starts-append (String.◌∷◌ c x) rest h = rw cons-append h

cut-starts : (s : String) → starts s ≡ true → cut true s ≡ cut false s
cut-starts String.[] h = cc
cut-starts (String.◌∷◌ c s) h = ground arith

token-starts : (x : String) → IsToken x → starts x ≡ true
token-starts String.[] (e, h, m) = cc
token-starts (String.◌∷◌ c s) (e, h, m) = ground arith

join-starts : (y : String) (ys : List String) → IsToken y → starts (join (y ∷ ys)) ≡ true
join-starts y [] h = token-starts y h
join-starts y (z ∷ zs) h =
    starts-append (y <> ", ") (join (z ∷ zs)) (starts-append y ", " (token-starts y h))

pub cut-join : (xs : List String) → xs ≢ [] → All IsToken xs → cut false (join xs) ≡ xs
cut-join [] n h = absurd (n refl)
cut-join (x ∷ []) n ((e, h, m), _) = cut-one x h m
cut-join (x ∷ y ∷ ys) n ((e, h, m), (token, tokens)) = rw (
  cut-comma x (join (y ∷ ys)) h m,
  cut-starts (join (y ∷ ys)) (join-starts y ys token),
  cut-join (y ∷ ys) (λ e. cc) (token, tokens),
)

-- The value of a dotted quad.
abbrev quad : ℕ → ℕ → String → ℕ
quad acc part String.[] = acc * 256 + part
quad acc part (String.◌∷◌ c s) =
    if code c == code "."
    then quad (acc * 256 + part) 0 s
    else quad acc (part * 10 + (code c - b'0')) s

abbrev zeros : ℕ → String
zeros Prim.Native.Nat.zero = ""
zeros (Prim.Native.Nat.suc n) = String.◌∷◌ "0" (zeros n)

abbrev length : String → ℕ
length String.[] = 0
length (String.◌∷◌ c s) = 1 + length s

abbrev pad : ℕ → ℕ → String
pad n width = zeros (width - length (to_string n)) <> to_string n

abbrev pub assoc : Deps
assoc = record {
  Address = String;
  unspecified = "0.0.0.0";
  make_address = λ s. some s;
  address_string = λ a. a;
  is_unspecified = λ a. str_eq a "0.0.0.0";
  is_v4 = λ a. has_char "." a;
  same_address = λ a b. str_eq a b;
  to_uint = λ a. quad 0 0 a;
  make_address-address_string = λ a. refl;
  is_unspecified-unspecified = refl;
  same_address-refl = eq_refl;
  split_values = cut false;
  join_values = join;
  lexical_cast =
      λ s. if is_empty s then none else (if all_of is_digit s then some (decimal 0 s) else none);
  join_values-nil = refl;
  join_values-one = λ x. refl;
  join_values-cons = λ x y ys. refl;
  split_values-join_values = cut-join;
  enum_cast = λ {A} table s. lookup_lower s table;
  enum_cast-eq-lookup_lower = λ {A} table s. refl;
  enum_cast_exact = λ {A} table s. lookup_exact s table;
  enum_cast_exact-eq-lookup_exact = λ {A} table s. refl;
  pad_number = pad;
  Store = List Entry;
  get_groups = group_names;
  has_group = has_entry;
  has_key = key_there;
  get_value = find_entry;
  set_value = λ s g k v. (g, k, v) ∷ s;
  get_value-set_value = λ s g k v g' k'. refl;
  has_group-set_value = λ s g k v g'. refl;
  has_key-set_value = key_there-set;
  has_key-no_group = key_there-no_group;
  get_value-no_group = find_entry-no_group;
}
