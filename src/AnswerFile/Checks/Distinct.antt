-- ===== src/AnswerFile/Checks/Distinct.antt =====
-- The texts that `validateNodeInventoryTopology` of src/models/answerfile.cpp compares, and what it
-- means that they are distinct.
use opencattus.Base.{
  String, ◌≡◌, refl, sym, ap, subst, ◌⊎◌, inl, inr, Bool, true, false, ◌||◌, Option, none, some,
  List, [], ◌∷◌, if◌then◌else◌, arith, ok, Bool-cases, str_eq, value_or, Option-cases,
}
use opencattus.Base.Text.{is_empty, lower}
use opencattus.Deps.{Deps}
use opencattus.Network.Cidr.{find_text}
use opencattus.AnswerFile.{AfNode}
use opencattus.AnswerFile.Checks.{Seen, remember_unique_node_value}

abbrev pub member : String → List String → Bool
member v [] = false
member v (k ∷ ks) = str_eq k v || member v ks

-- No nonempty text of the list occurs before its place or among `ks`.
abbrev pub DistinctFrom : List String → List String → Type 0
DistinctFrom ks [] = Unit {0}
DistinctFrom ks (v ∷ vs) =
    ((is_empty v ≡ true) × DistinctFrom ks vs)
    ⊎ ((is_empty v ≡ false) × (member v ks ≡ false) × DistinctFrom (v ∷ ks) vs)

abbrev pub keys : Seen → List String
keys [] = []
keys ((k, owner) ∷ seen) = k ∷ keys seen

-- The keys behind a round: the same for an empty text, else with a new one.
abbrev pub Noted : List String → String → List String → Type 0
Noted ks v ks' =
    ((is_empty v ≡ true) × (ks' ≡ ks))
    ⊎ ((is_empty v ≡ false) × (member v ks ≡ false) × (ks' ≡ v ∷ ks))

find_text-member :
    (v : String) (seen : Seen) → find_text v seen ≡ none → member v (keys seen) ≡ false
find_text-member v [] h = refl
find_text-member v ((k, owner) ∷ seen) h = ground (arith, find_text-member v seen)

pub remember-Noted :
    (seen : Seen) (field v owner : String) {seen' : Seen}
    → remember_unique_node_value seen field v owner ≡ ok seen'
    → Noted (keys seen) v (keys seen')
unfolding remember_unique_node_value
remember-Noted seen field v owner {seen'} h = elim (Bool-cases (is_empty v)) [
  | inl blank ↦ inl (blank, ap keys (sym (unchanged blank)))
  | inr filled ↦ elim (Option-cases (find_text v seen)) [
    | inl new ↦ inr (filled, find_text-member v seen new, ap keys (sym (added filled new)))
    | inr (first, old) ↦ absurd (ground arith)
  ]
]
  where
    unchanged : is_empty v ≡ true → seen ≡ seen'
    unchanged blank = ground arith

    added : is_empty v ≡ false → find_text v seen ≡ none → ((v, owner) ∷ seen) ≡ seen'
    added filled new = ground arith

pub Noted-DistinctFrom :
    {ks ks' : List String} {v : String} (vs : List String)
    → Noted ks v ks'
    → DistinctFrom ks' vs
    → DistinctFrom ks (v ∷ vs)
Noted-DistinctFrom {ks} {ks'} {v} vs (inl (blank, same)) h =
    inl (blank, subst (λ x. DistinctFrom x vs) same h)
Noted-DistinctFrom {ks} {ks'} {v} vs (inr (filled, new, more)) h =
    inr (filled, new, subst (λ x. DistinctFrom x vs) more h)

module _ (d : Deps) where
  abbrev pub hostname_text : AfNode d.Address → String
  hostname_text node = value_or node.hostname ""

  abbrev pub mac_text : AfNode d.Address → String
  mac_text node = lower (value_or node.mac_address "")

  abbrev pub address_text : Option d.Address → String
  address_text none = ""
  address_text (some a) = if d.is_unspecified a then "" else d.address_string a

  abbrev pub bmc_text : AfNode d.Address → String
  bmc_text node = value_or node.bmc_address ""

  abbrev pub hostnames_of : List (AfNode d.Address) → List String
  hostnames_of [] = []
  hostnames_of (node ∷ nodes) = hostname_text node ∷ hostnames_of nodes

  abbrev pub macs_of : List (AfNode d.Address) → List String
  macs_of [] = []
  macs_of (node ∷ nodes) = mac_text node ∷ macs_of nodes

  abbrev pub addresses_of : List (AfNode d.Address) → List String
  addresses_of [] = []
  addresses_of (node ∷ nodes) = address_text node.start_ip ∷ bmc_text node ∷ addresses_of nodes
