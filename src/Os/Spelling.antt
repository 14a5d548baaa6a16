-- ===== src/Os/Spelling.antt =====
-- The names that `OS::setDistro` of src/models/os.cpp accepts.
use opencattus.Base.{String, ◌≡◌, ◌⊎◌, inl, inr, some, List, [], ◌∷◌, ok, ◌>>=◌}
use opencattus.Base.Text.{lower}
use opencattus.Deps.{Deps}
use opencattus.Enums.{Distro, rhel, ol, rocky, alma_linux, ubuntu, distros}
use opencattus.Os.{Os, set_distro, normalized_distro, get_package_type, package_type_of}

-- The spellings of a distribution, in small letters.
abbrev pub spellings : Distro → List String
spellings rhel = "rhel" ∷ []
spellings ol = "ol" ∷ []
spellings rocky = "rocky" ∷ []
spellings alma_linux = "almalinux" ∷ "alma" ∷ []
spellings ubuntu = "ubuntu" ∷ "ubuntu24" ∷ "ubuntu2404" ∷ "ubuntu24.04" ∷ []

-- The text is one of the list.
abbrev pub IsOneOf : String → List String → Type 0
IsOneOf s [] = ⊥
IsOneOf s (t ∷ ts) = (s ≡ t) ⊎ IsOneOf s ts

module _ (d : Deps) where
  spelled :
      (x : Distro) (s : String)
      → IsOneOf s (spellings x)
      → d.enum_cast distros (normalized_distro s) ≡ some x
  unfolding normalized_distro lower
  spelled rhel s (inl e) = simp (e, d.enum_cast-eq-lookup_lower)
  spelled rhel s (inr h) = elim h [ ]
  spelled ol s (inr h) = elim h [ ]
  spelled rocky s (inr h) = elim h [ ]
  spelled alma_linux s (inr (inr h)) = elim h [ ]
  spelled ubuntu s (inr (inr (inr (inr h)))) = elim h [ ]
  spelled ol s (inl e) = simp (e, d.enum_cast-eq-lookup_lower)
  spelled rocky s (inl e) = simp (e, d.enum_cast-eq-lookup_lower)
  spelled alma_linux s (inl e) = simp (e, d.enum_cast-eq-lookup_lower)
  spelled alma_linux s (inr (inl e)) = simp (e, d.enum_cast-eq-lookup_lower)
  spelled ubuntu s (inl e) = simp (e, d.enum_cast-eq-lookup_lower)
  spelled ubuntu s (inr (inl e)) = simp (e, d.enum_cast-eq-lookup_lower)
  spelled ubuntu s (inr (inr (inl e))) = simp (e, d.enum_cast-eq-lookup_lower)
  spelled ubuntu s (inr (inr (inr (inl e)))) = simp (e, d.enum_cast-eq-lookup_lower)

module _ (d : Deps) (name : String) (os : Os) where
  -- The name of a distribution in any spelling and in letters of any case sets that distribution,
  -- and the packages of the system are then those of the distribution.
  pub set_distro-spellings :
      (x : Distro)
      → IsOneOf (lower name) (spellings x)
      → (set_distro d name os ≡ ok (record os { distro = some x }))
        × ((set_distro d name os >>= get_package_type) ≡ ok (package_type_of x))
  unfolding set_distro get_package_type
  set_distro-spellings x h = (simp (spelled d x (lower name) h), simp (spelled d x (lower name) h))
