-- ===== src/KeyFile/View.antt =====
-- What the readers of services/files.cpp see of one group of a key file: an independent view of
-- the file as a function from keys to values, and how the writers change it.
use opencattus.Base.{
  String, ◌≡◌, refl, true, false, ◌&&◌, Option, none, some, if◌then◌else◌, ok, or_throw,
  runtime_error, no_such_entry, has_value, value_or, str_eq, eq_refl, arith,
}
use opencattus.Deps.{Deps}
use opencattus.KeyFile.{get_string, get_string_or, get_string_opt, set_string_opt}

abbrev pub or_else : Option String → Option String → Option String
or_else none p = p
or_else (some v) p = some v

abbrev pub put : String → String → (String → Option String) → String → Option String
put k v f j = if str_eq k j then some v else f j

abbrev pub put_opt : String → Option String → (String → Option String) → String → Option String
put_opt k o f j = if str_eq k j then or_else o (f j) else f j

abbrev pub nothing : String → Option String
nothing j = none

pub or_else-none : (o : Option String) → or_else o none ≡ o
or_else-none none = refl
or_else-none (some v) = refl

module _ (d : Deps) where
  -- The group is there, and holds exactly the entries of `f`.
  pub record Sees (file : d.Store) (group : String) (f : String → Option String) : Type 0 where
    pub there : d.has_group file group ≡ true
    pub keys : (k : String) → d.has_key file group k ≡ some (has_value (f k))
    pub values : (k : String) → d.get_value file group k ≡ f k

  -- The group is not there.
  abbrev pub Lacks : d.Store → String → Type 0
  Lacks file group = d.has_group file group ≡ false

  module _ {file : d.Store} {group : String} where
    pub Sees-start :
        (k v : String)
        → Lacks file group
        → Sees (d.set_value file group k v) group (put k v nothing)
    Sees-start k v h = record {
      there = ground (arith, d.has_group-set_value file group k v group, eq_refl group);
      keys = λ j. ground (
        arith,
        d.has_key-set_value file group k v group j,
        eq_refl group,
        d.has_key-no_group file group j h,
      );
      values = λ j. ground (
        arith,
        d.get_value-set_value file group k v group j,
        eq_refl group,
        d.get_value-no_group file group j h,
      );
    }

    module _ {f : String → Option String} (s : Sees file group f) where
      pub Sees-set : (k v : String) → Sees (d.set_value file group k v) group (put k v f)
      Sees-set k v = record {
        there = ground (arith, d.has_group-set_value file group k v group, eq_refl group);
        keys = λ j.
            ground
              (arith, d.has_key-set_value file group k v group j, eq_refl group, s.there, s.keys j);
        values = λ j.
            ground (arith, d.get_value-set_value file group k v group j, eq_refl group, s.values j);
      }

      pub Sees-frame :
          (g k v : String) → str_eq g group ≡ false → Sees (d.set_value file g k v) group f
      Sees-frame g k v h = record {
        there = ground (arith, d.has_group-set_value file g k v group, s.there);
        keys = λ j. ground (arith, d.has_key-set_value file g k v group j, s.keys j);
        values = λ j. ground (arith, d.get_value-set_value file g k v group j, s.values j);
      }

      pub get_string-Sees :
          (k : String)
          → get_string d file group k ≡ or_throw (f k) (runtime_error (no_such_entry group k))
      unfolding get_string
      get_string-Sees k = rw (s.values k)

      pub get_string_or-Sees :
          (k v : String) → get_string_or d file group k v ≡ ok (value_or (f k) v)
      unfolding get_string_or
      get_string_or-Sees k v = ground (arith, s.keys k, s.values k)

      pub get_string_opt-Sees : (k : String) → get_string_opt d file group k ≡ ok (f k)
      unfolding get_string_opt
      get_string_opt-Sees k = ground (arith, s.keys k, s.values k)

  pub Lacks-frame :
      {file : d.Store} {group : String} (g k v : String)
      → str_eq g group ≡ false
      → Lacks file group
      → Lacks (d.set_value file g k v) group
  Lacks-frame {file} {group} g k v h m = ground (arith, d.has_group-set_value file g k v group, m)

  module _ {file : d.Store} {group : String} {f : String → Option String} where
    pub Sees-set_opt :
        (k : String) (o : Option String)
        → Sees file group f
        → Sees (set_string_opt d group k o file) group (put_opt k o f)
    Sees-set_opt k none s = record {
      there = s.there;
      keys = λ j. ground (arith, s.keys j);
      values = λ j. ground (arith, s.values j);
    }
    Sees-set_opt k (some v) s = Sees-set s k v

  -- What a reader returns after one write.
  module _ (file : d.Store) (g k v group key : String) where
    pub get_string-set_value :
        get_string d (d.set_value file g k v) group key
        ≡ (if str_eq g group && str_eq k key then ok v else get_string d file group key)
    unfolding get_string
    get_string-set_value = ground (arith, d.get_value-set_value file g k v group key)

    pub get_string_opt-set_value : get_string_opt d (d.set_value file g k v) group key ≡ (
        if str_eq g group
        then (if str_eq k key
            then ok (some v)
            else (if d.has_group file group then get_string_opt d file group key else ok none))
        else get_string_opt d file group key)
    unfolding get_string_opt
    get_string_opt-set_value = ground (
      arith,
      d.get_value-set_value file g k v group key,
      d.has_key-set_value file g k v group key,
    )

pub ruleset reads = (get_string-set_value, get_string_opt-set_value)
