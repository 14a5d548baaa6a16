-- ===== src/Network/Cidr.antt =====
-- The table of subnet masks of include/opencattus/network.h.
use opencattus.Base.{
  ℕ, String, Bool, Option, none, some, List, [], ◌∷◌, str_eq, if◌then◌else◌, has_value,
}

unfoldable pub cidr : List (String × ℕ)
cidr =
    ("0.0.0.0", 0)
    ∷ ("128.0.0.0", 1)
    ∷ ("192.0.0.0", 2)
    ∷ ("224.0.0.0", 3)
    ∷ ("240.0.0.0", 4)
    ∷ ("248.0.0.0", 5)
    ∷ ("252.0.0.0", 6)
    ∷ ("254.0.0.0", 7)
    ∷ ("255.0.0.0", 8)
    ∷ ("255.128.0.0", 9)
    ∷ ("255.192.0.0", 10)
    ∷ ("255.224.0.0", 11)
    ∷ ("255.240.0.0", 12)
    ∷ ("255.248.0.0", 13)
    ∷ ("255.252.0.0", 14)
    ∷ ("255.254.0.0", 15)
    ∷ ("255.255.0.0", 16)
    ∷ ("255.255.128.0", 17)
    ∷ ("255.255.192.0", 18)
    ∷ ("255.255.224.0", 19)
    ∷ ("255.255.240.0", 20)
    ∷ ("255.255.248.0", 21)
    ∷ ("255.255.252.0", 22)
    ∷ ("255.255.254.0", 23)
    ∷ ("255.255.255.0", 24)
    ∷ ("255.255.255.128", 25)
    ∷ ("255.255.255.192", 26)
    ∷ ("255.255.255.224", 27)
    ∷ ("255.255.255.240", 28)
    ∷ ("255.255.255.248", 29)
    ∷ ("255.255.255.252", 30)
    ∷ ("255.255.255.254", 31)
    ∷ ("255.255.255.255", 32)
    ∷ []

-- `find` on a map from texts.
abbrev pub find_text {ℓ} : {A : Type ℓ} → String → List (String × A) → Option A
find_text k [] = none
find_text k ((j, a) ∷ table) = if str_eq j k then some a else find_text k table

-- `cidr.contains`
unfoldable pub cidr_contains : String → Bool
unfolding cidr
cidr_contains mask = has_value (find_text mask cidr)
