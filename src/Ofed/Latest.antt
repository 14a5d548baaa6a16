-- ===== src/Ofed/Latest.antt =====
-- The kernel that the loop of `latestInstalledKernelCore` in src/ofed.cpp chooses is the one that
-- was installed last.
use opencattus.Base.{
  String, ◌≡◌, refl, sym, ap, ◌∙◌, subst, ◌⊎◌, inl, inr, true, false, Option, none, some, List, [],
  ◌∷◌, All, if◌then◌else◌, Result, ok, err, after, Bool-cases, arith,
}
use opencattus.Base.Search.{ℤ, pos, negsuc, less, signed_value}
use opencattus.Ofed.Newest.{
  Kernel, is_newer, newest_at, parts_of, keep_newest, newest_of, name_or_throw, latest_kernel,
}

less_trans : (a b c : ℤ) → less b a ≡ false → less c b ≡ false → less c a ≡ false
less_trans (pos a) (pos b) (pos c) h k = ground arith
less_trans (pos a) (pos b) (negsuc c) h k = cc
less_trans (pos a) (negsuc b) c h k = cc
less_trans (negsuc a) (pos b) (pos c) h k = refl
less_trans (negsuc a) (negsuc b) (pos c) h k = refl
less_trans (negsuc a) (pos b) (negsuc c) h k = cc
less_trans (negsuc a) (negsuc b) (negsuc c) h k = ground arith

less_antisym : (a b : ℤ) → less a b ≡ true → less b a ≡ false
less_antisym (pos a) (pos b) h = ground arith
less_antisym (pos a) (negsuc b) h = cc
less_antisym (negsuc a) (pos b) h = refl
less_antisym (negsuc a) (negsuc b) h = ground arith

less_refl : (a : ℤ) → less a a ≡ false
less_refl (pos a) = ground arith
less_refl (negsuc a) = ground arith

-- A line with no kernel, or with one that was not installed after the time.
abbrev pub IsNotAfter : ℤ → Option (String × String) → Type 0
IsNotAfter time none = Unit {0}
IsNotAfter time (some (text, name)) =
    (t : ℤ) × (signed_value 64 text ≡ ok t) × (less time t ≡ false)

-- A kernel of one of the lines.
pub data IsListed (time : ℤ) (name : String) : List String → Type 0 where
  first_line :
      {line text : String} {lines : List String}
      → parts_of line ≡ some (text, name)
      → signed_value 64 text ≡ ok time
      → IsListed time name (line ∷ lines)
  later_line :
      {line : String} {lines : List String}
      → IsListed time name lines
      → IsListed time name (line ∷ lines)

abbrev IsNotAfterOpt : ℤ → Option Kernel → Type 0
IsNotAfterOpt time none = Unit {0}
IsNotAfterOpt time (some (t, name)) = less time t ≡ false

-- One line: the kernel behind it is the one before it or that of the line, and neither is later.
step :
    (newest : Option Kernel) (parts : Option (String × String)) {next : Option Kernel}
    → keep_newest newest parts ≡ ok next
    → (time : ℤ) → IsNotAfterOpt time next
    → IsNotAfterOpt time newest × IsNotAfter time parts
step newest none {next} h time n =
    let same : newest ≡ next = cc in (subst (IsNotAfterOpt time) (sym same) n, tt)
step newest (some (text, name)) {next} h time n = at_time (signed_value 64 text) refl h
  where
    kept :
        (t : ℤ) (old : Option Kernel)
        → IsNotAfterOpt time (if is_newer t old then some (t, name) else old)
        → IsNotAfterOpt time old × (less time t ≡ false)
    kept t none m = (tt, m)
    kept t (some (u, other)) m = elim (Bool-cases (less u t)) [
      | inl newer ↦
          let after_t : less time t ≡ false = rw newer at m in
          (less_trans u t time (less_antisym u t newer) after_t, after_t)
      | inr older ↦
          let after_u : less time u ≡ false = rw older at m in
          (after_u, less_trans t u time older after_u)
    ]

    at_time :
        (r : Result ℤ)
        → signed_value 64 text ≡ r
        → newest_at newest name r ≡ ok next
        → IsNotAfterOpt time newest × IsNotAfter time (some (text, name))
    at_time (err e) e' h = cc
    at_time (ok t) e' h =
        let same : (if is_newer t newest then some (t, name) else newest) ≡ next = cc in
        let (old, not_after) = kept t newest (subst (IsNotAfterOpt time) (sym same) n) in
        (old, (t, e', not_after))

found :
    (newest : Option Kernel) (parts : Option (String × String)) (k : Kernel)
    → keep_newest newest parts ≡ ok (some k)
    → (newest ≡ some k)
      ⊎ ((text : String) × (parts ≡ some (text, k.1)) × (signed_value 64 text ≡ ok k.0))
found newest none k h = inl cc
found newest (some (text, name)) k h = at_time (signed_value 64 text) refl h
  where
    at_time :
        (r : Result ℤ)
        → signed_value 64 text ≡ r
        → newest_at newest name r ≡ ok (some k)
        → (newest ≡ some k)
          ⊎ ((x : String) × (◌≡◌ {A = Option (String × String)} (some (text, name)) (some (x, k.1)))
              × (signed_value 64 x ≡ ok k.0))
    at_time (err e) e' h = cc
    at_time (ok t) e' h = elim (Bool-cases (is_newer t newest)) [
      | inl newer ↦
          let set : ◌≡◌ {A = Result (Option Kernel)} (ok (some (t, name))) (ok (some k)) =
            rw newer at h in
          let same : ◌≡◌ {A = Kernel} (t, name) k = cc in
          inr (
            text,
            ap (λ (x : Kernel). some (text, x.1)) same,
            e' ∙ ap (λ (x : Kernel). ok x.0) same,
          )
      | inr older ↦ let set : ok newest ≡ ok (some k) = rw older at h in inl cc
    ]

-- The loop: what it ends with is its start or in the lines, and none of them is later.
loop :
    (lines : List String) (newest : Option Kernel) (k : Kernel)
    → newest_of lines newest ≡ ok (some k)
    → IsNotAfterOpt k.0 newest
      × All (λ line. IsNotAfter k.0 (parts_of line)) lines
      × ((newest ≡ some k) ⊎ IsListed k.0 k.1 lines)
unfolding newest_of
loop [] newest k h =
    let same : newest ≡ some k = cc in
    (subst (IsNotAfterOpt k.0) (sym same) (less_refl k.0), tt, inl same)
loop (line ∷ lines) newest k h = after (keep_newest newest (parts_of line)) _ h λ next e h1.
    let (not_after, all, from) = loop lines next k h1 in
    let (old, this) = step newest (parts_of line) e k.0 not_after in
    (old, (this, all), origin next e from)
  where
    origin :
        (next : Option Kernel)
        → keep_newest newest (parts_of line) ≡ ok next
        → (next ≡ some k) ⊎ IsListed k.0 k.1 lines
        → (newest ≡ some k) ⊎ IsListed k.0 k.1 (line ∷ lines)
    origin next e (inr listed) = inr (later_line listed)
    origin next e (inl is) = elim (found newest (parts_of line) k (e ∙ ap ok is)) [
      | inl start ↦ inl start
      | inr (text, at, read) ↦ inr (first_line at read)
    ]

-- The kernel that is chosen is in one of the lines, with its time, and no line has a kernel that was
-- installed after it.
pub latest_kernel-IsListed :
    (lines : List String) (name : String)
    → latest_kernel lines ≡ ok name
    → (time : ℤ) × IsListed time name lines × All (λ line. IsNotAfter time (parts_of line)) lines
unfolding latest_kernel
latest_kernel-IsListed lines name h =
    after (newest_of lines none) _ h λ newest e h1. chosen newest e h1
  where
    chosen :
        (newest : Option Kernel)
        → newest_of lines none ≡ ok newest
        → name_or_throw newest ≡ ok name
        → (time : ℤ) × IsListed time name lines
          × All (λ line. IsNotAfter time (parts_of line)) lines
    chosen none e h = cc
    chosen (some (time, found_name)) e h =
        let (start, all, from) = loop lines none (time, found_name) e in
        let same : found_name ≡ name = ground arith in
        (time, subst (λ n. IsListed time n lines) same (in_lines from), all)
      where
        in_lines :
            (◌≡◌ {A = Option Kernel} none (some (time, found_name)))
              ⊎ IsListed time found_name lines
            → IsListed time found_name lines
        in_lines (inl never) = cc
        in_lines (inr listed) = listed
