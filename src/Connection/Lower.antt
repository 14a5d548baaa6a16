-- ===== src/Connection/Lower.antt =====
-- A MAC address in lower case is a MAC address again, so that `setMAC` of src/connection.cpp takes
-- what `setMACAddress` of src/models/node.cpp keeps.
use opencattus.Base.{
  ◌≡◌, refl, subst, inl, inr, Bool, true, ◌||◌, ◌&&◌, not, List, [], ◌∷◌, All, arith, String, ◌==◌,
  ==_iff, Bool-cases,
}
use Prim.Native.Char.{Char, code}
use text.Mathlib.TextEquality.{Char-path}
use opencattus.Base.Text.{lower, to_lower, transliterate, matches}
use opencattus.Connection.{pair_format, cisco_format}
use opencattus.Connection.Formats.{IsInFormat, IsInFormat-IsMac, IsMac-IsInFormat, IsMac}

-- A class that a letter in the first text shares with the letter at its place in the second.
abbrev keeps : (Char → Bool) → String → String → Bool
keeps p (String.◌∷◌ u us) (String.◌∷◌ l ls) = (not (p u) || p l) && keeps p us ls
keeps p _ _ = true

transliterate-keeps :
    (p : Char → Bool) (c : Char) (us ls : String)
    → keeps p us ls ≡ true
    → p c ≡ true
    → p (transliterate c us ls) ≡ true
unfolding transliterate
transliterate-keeps p c String.[] ls k h = h
transliterate-keeps p c (String.◌∷◌ u us) String.[] k h = h
transliterate-keeps p c (String.◌∷◌ u us) (String.◌∷◌ l ls) k h =
    elim (Bool-cases (code c == code u)) [
      | inl e ↦ rw e (same (Char-path c u ((==_iff (code c) (code u)).0 e)))
      | inr e ↦ rw e (transliterate-keeps p c us ls (ground arith) h)
    ]
  where
    same : c ≡ u → p l ≡ true
    same e = let hu : p u ≡ true = subst (λ x. p x ≡ true) e h in ground arith

-- A class that lower case keeps.
abbrev IsKept : (Char → Bool) → Type 0
IsKept p = keeps p "ABCDEFGHIJKLMNOPQRSTUVWXYZ" "abcdefghijklmnopqrstuvwxyz" ≡ true

to_lower-keeps : (p : Char → Bool) (c : Char) → IsKept p → p c ≡ true → p (to_lower c) ≡ true
unfolding to_lower
to_lower-keeps p c k h =
    transliterate-keeps p c "ABCDEFGHIJKLMNOPQRSTUVWXYZ" "abcdefghijklmnopqrstuvwxyz" k h

both : (a b : Bool) → a ≡ true → b ≡ true → (a && b) ≡ true
both a b h k = rw (h, k) refl

matches-lower :
    (ps : List (Char → Bool)) (s : String)
    → All IsKept ps
    → matches ps s ≡ true
    → matches ps (lower s) ≡ true
unfolding lower
matches-lower [] String.[] k h = refl
matches-lower [] (String.◌∷◌ c s) k h = cc
matches-lower (p ∷ ps) String.[] k h = cc
matches-lower (p ∷ ps) (String.◌∷◌ c s) (k, ks) h =
    both (p (to_lower c)) _ (to_lower-keeps p c k (ground arith))
      (matches-lower ps s ks (ground arith))

IsInFormat-lower : (mac : String) → IsInFormat mac → IsInFormat (lower mac)
IsInFormat-lower mac (inl h) = inl (matches-lower pair_format mac kept h)
  where
    kept : All IsKept pair_format
    kept = search
IsInFormat-lower mac (inr h) = inr (matches-lower cisco_format mac kept h)
  where
    kept : All IsKept cisco_format
    kept = search

-- A MAC address in lower case is one.
pub IsMac-lower : (mac : String) → IsMac mac → IsMac (lower mac)
IsMac-lower mac m = IsInFormat-IsMac (lower mac) (IsInFormat-lower mac (IsMac-IsInFormat mac m))
