-- ===== src/Enums.antt =====
-- The enumerations of the models with the names of their enumerators, and
-- include/opencattus/utils/enums.h over them.
use opencattus.Base.{String, Option, List, [], ◌∷◌}
use opencattus.Deps.{Deps}

-- OS::Distro
pub data Distro : Type 0 where
  rhel ol rocky alma_linux ubuntu : Distro

-- Postfix::Profile
pub data MailProfile : Type 0 where
  local relay sasl : MailProfile

-- PBS::ExecutionPlace
pub data ExecutionPlace : Type 0 where
  shared scatter : ExecutionPlace

-- OFED::Kind
pub data OfedKind : Type 0 where
  inbox doca oracle : OfedKind

-- OS::Platform
pub data Platform : Type 0 where
  el8 el9 el10 ubuntu2404 : Platform

-- OS::Family
pub data Family : Type 0 where
  linux darwin : Family

-- Network::Profile
pub data Profile : Type 0 where
  external management service application : Profile

-- Network::Type
pub data NetworkType : Type 0 where
  ethernet infiniband : NetworkType

abbrev pub distros : List (String × Distro)
distros =
    ("RHEL", rhel)
    ∷ ("OL", ol)
    ∷ ("Rocky", rocky)
    ∷ ("AlmaLinux", alma_linux)
    ∷ ("Ubuntu", ubuntu)
    ∷ []

abbrev pub mail_profiles : List (String × MailProfile)
mail_profiles = ("Local", local) ∷ ("Relay", relay) ∷ ("SASL", sasl) ∷ []

abbrev pub execution_places : List (String × ExecutionPlace)
execution_places = ("Shared", shared) ∷ ("Scatter", scatter) ∷ []

abbrev pub ofed_kinds : List (String × OfedKind)
ofed_kinds = ("Inbox", inbox) ∷ ("Doca", doca) ∷ ("Oracle", oracle) ∷ []

abbrev pub platforms : List (String × Platform)
platforms = ("el8", el8) ∷ ("el9", el9) ∷ ("el10", el10) ∷ ("ubuntu2404", ubuntu2404) ∷ []

abbrev pub families : List (String × Family)
families = ("Linux", linux) ∷ ("Darwin", darwin) ∷ []

-- `enums::toString`
abbrev pub distro_name : Distro → String
distro_name rhel = "RHEL"
distro_name ol = "OL"
distro_name rocky = "Rocky"
distro_name alma_linux = "AlmaLinux"
distro_name ubuntu = "Ubuntu"

abbrev pub mail_profile_name : MailProfile → String
mail_profile_name local = "Local"
mail_profile_name relay = "Relay"
mail_profile_name sasl = "SASL"

abbrev pub execution_place_name : ExecutionPlace → String
execution_place_name shared = "Shared"
execution_place_name scatter = "Scatter"

-- `enums::ofStringOpt` with Case::Insensitive
abbrev pub of_string_opt : (d : Deps) {A : Type 0} → List (String × A) → String → Option A
of_string_opt d table s = d.enum_cast table s

-- `enums::ofStringOpt` with Case::Sensitive
abbrev pub of_string_exact : (d : Deps) {A : Type 0} → List (String × A) → String → Option A
of_string_exact d table s = d.enum_cast_exact table s
