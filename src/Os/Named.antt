-- ===== src/Os/Named.antt =====
-- The names that `OS::setDistro` of src/models/os.cpp accepts are spellings of the distribution.
use opencattus.Base.{
  ◌≡◌, ◌||◌, eq_iff, refl, sym, ap, ◌∙◌, ◌⊎◌, inl, inr, Bool, true, false, ◌&&◌, some, List, [],
  ◌∷◌, String, ◌==◌, ==_iff, Bool-cases, arith, str_eq,
}
use Prim.Native.Char.{Char, code}
use text.Mathlib.TextEquality.{Char-path}
use opencattus.Base.Text.{lower, to_lower, transliterate}
use opencattus.Deps.{lookup_lower}
use opencattus.Enums.{Distro, rhel, ol, rocky, alma_linux, ubuntu, distros}
use opencattus.Os.{normalized_distro, distro_lower_name}
use opencattus.Os.Spelling.{spellings, IsOneOf}

abbrev uppers : String
uppers = "ABCDEFGHIJKLMNOPQRSTUVWXYZ"

abbrev lowers : String
lowers = "abcdefghijklmnopqrstuvwxyz"

-- Each character of the second text that has a place in the first stays as it is.
abbrev all_fixed : String → String → Bool
all_fixed (String.◌∷◌ u us) (String.◌∷◌ l ls) =
    code (transliterate l uppers lowers) == code l && all_fixed us ls
all_fixed _ _ = true

image :
    (c : Char) (us ls : String)
    → all_fixed us ls ≡ true
    → (transliterate c us ls ≡ c)
      ⊎ (transliterate (transliterate c us ls) uppers lowers ≡ transliterate c us ls)
unfolding transliterate
image c String.[] ls h = inl refl
image c (String.◌∷◌ u us) String.[] h = inl refl
image c (String.◌∷◌ u us) (String.◌∷◌ l ls) h = elim (Bool-cases (code c == code u)) [
  | inl e ↦ rw e (inr (Char-path _ _ ((==_iff _ (code l)).0 (ground arith))))
  | inr e ↦ rw e (image c us ls (ground arith))
]

to_lower-to_lower : (c : Char) → to_lower (to_lower c) ≡ to_lower c
unfolding to_lower transliterate
to_lower-to_lower c = elim (image c uppers lowers refl) [
  | inl e ↦ ap (λ x. transliterate x uppers lowers) e
  | inr e ↦ e
]

pub lower-lower : (s : String) → lower (lower s) ≡ lower s
unfolding lower
lower-lower String.[] = refl
lower-lower (String.◌∷◌ c s) =
    ap (λ x. String.◌∷◌ x (lower (lower s))) (to_lower-to_lower c)
    ∙ ap (String.◌∷◌ (to_lower c)) (lower-lower s)

-- Each entry has the name of its distribution.
abbrev IsNamed : List (String × Distro) → Type 0
IsNamed [] = Unit {0}
IsNamed ((name, a) ∷ table) = (lower name ≡ distro_lower_name a) × IsNamed table

found_in :
    (table : List (String × Distro)) (s : String) (x : Distro)
    → IsNamed table
    → lookup_lower s table ≡ some x
    → lower s ≡ distro_lower_name x
found_in [] s x n h = cc
found_in ((name, a) ∷ table) s x (n, ns) h = elim (Bool-cases (str_eq (lower name) (lower s))) [
  | inl e ↦
      let same : some a ≡ some x = rw e at h in
      let a-x : a ≡ x = cc in sym ((eq_iff _ _).0 e) ∙ n ∙ ap distro_lower_name a-x
  | inr e ↦ found_in table s x ns (rw e at h)
]

-- A name that is looked up is the one of the distribution.
found : (s : String) (x : Distro) → lookup_lower s distros ≡ some x → lower s ≡ distro_lower_name x
unfolding lower to_lower transliterate
found s x h = found_in distros s x (refl, (refl, (refl, (refl, (refl, tt))))) h

own_name : (x : Distro) (s : String) → s ≡ distro_lower_name x → IsOneOf s (spellings x)
own_name rhel s e = inl e
own_name ol s e = inl e
own_name rocky s e = inl e
own_name alma_linux s e = inl e
own_name ubuntu s e = inl e

differ : (s t : String) → str_eq s t ≡ false → s ≡ t → ⊥
differ s t h e = let same = (eq_iff s t).1 e in cc

of_alma :
    (x : Distro) (s : String)
    → "almalinux" ≡ distro_lower_name x
    → s ≡ "alma"
    → IsOneOf s (spellings x)
of_alma rhel s e k = absurd (differ _ _ refl e)
of_alma ol s e k = absurd (differ _ _ refl e)
of_alma rocky s e k = absurd (differ _ _ refl e)
of_alma alma_linux s e k = inr (inl k)
of_alma ubuntu s e k = absurd (differ _ _ refl e)

of_ubuntu :
    (x : Distro) (s : String) (a b c : Bool)
    → "ubuntu" ≡ distro_lower_name x
    → (a ≡ true → s ≡ "ubuntu2404")
    → (b ≡ true → s ≡ "ubuntu24")
    → (c ≡ true → s ≡ "ubuntu24.04")
    → (a || b || c) ≡ true
    → IsOneOf s (spellings x)
of_ubuntu ubuntu s true b c e f g h k = inr (inr (inl (f refl)))
of_ubuntu ubuntu s false true c e f g h k = inr (inl (g refl))
of_ubuntu ubuntu s false false true e f g h k = inr (inr (inr (inl (h refl))))
of_ubuntu ubuntu s false false false e f g h k = cc
of_ubuntu rhel s a b c e f g h k = absurd (differ _ _ refl e)
of_ubuntu ol s a b c e f g h k = absurd (differ _ _ refl e)
of_ubuntu rocky s a b c e f g h k = absurd (differ _ _ refl e)
of_ubuntu alma_linux s a b c e f g h k = absurd (differ _ _ refl e)

lower-almalinux : lower "almalinux" ≡ "almalinux"
unfolding lower to_lower transliterate
lower-almalinux = refl

lower-ubuntu : lower "ubuntu" ≡ "ubuntu"
unfolding lower to_lower transliterate
lower-ubuntu = refl

-- A name in small letters that is looked up as a distribution is a spelling of it.
pub looked_up-IsOneOf :
    (s : String) (x : Distro)
    → lower s ≡ s
    → lookup_lower (normalized_distro s) distros ≡ some x
    → IsOneOf s (spellings x)
unfolding normalized_distro
looked_up-IsOneOf s x small h = elim (Bool-cases (str_eq s "alma")) [
  | inl e ↦
      of_alma x s (sym lower-almalinux ∙ found "almalinux" x (rw e at h)) ((eq_iff s "alma").0 e)
  | inr e ↦
      elim (Bool-cases (str_eq s "ubuntu2404" || str_eq s "ubuntu24" || str_eq s "ubuntu24.04")) [
        | inl u ↦
            of_ubuntu x s _ _ _ (sym lower-ubuntu ∙ found "ubuntu" x (rw (e, u) at h))
              (eq_iff s "ubuntu2404").0 (eq_iff s "ubuntu24").0 (eq_iff s "ubuntu24.04").0 u
        | inr u ↦ own_name x s (sym small ∙ found s x (rw (e, u) at h))
      ]
]
