-- ===== src/AnswerFile/Sections/Choices.antt =====
-- The sections of src/models/answerfile.cpp that choose components: [pbs], [ofed],
-- [repositories] and [ohpc].
use opencattus.Base.{
  String, ◌≡◌, ◌⊎◌, inl, inr, true, false, Option, none, some, List, [], ◌∷◌, ok, All,
}
use opencattus.Base.Text.{◌<>◌, is_empty, lower}
use opencattus.Enums.{ExecutionPlace, shared, scatter, execution_places, execution_place_name}
use opencattus.Deps.{Deps, IsToken}
use opencattus.KeyFile.View.{reads, Lacks}
use opencattus.AnswerFile.{AfPbs, AfOfed, AfRepositories, AfOhpc}
use opencattus.AnswerFile.Checks.{normalize_ofed_kind}
use opencattus.AnswerFile.Dump.{dump_pbs, dump_ofed, dump_repositories, dump_ohpc}
use opencattus.AnswerFile.Load.{load_pbs, load_ofed, load_repositories, load_ohpc, enabled_values}
use text.Mathlib.TextLemmas.{cons-append}

-- The names of the OFED kinds, as `dumpData` writes them.
abbrev pub IsOfedKind : String → Type 0
IsOfedKind kind = (kind ≡ "inbox") ⊎ ((kind ≡ "doca") ⊎ (kind ≡ "oracle"))

-- An optional list of texts without separators.
abbrev pub AreTokens : Option (List String) → Type 0
AreTokens none = Unit {0}
AreTokens (some xs) = All IsToken xs

append-ne-empty : (s t : String) → is_empty s ≡ false → is_empty (s <> t) ≡ false
append-ne-empty String.[] t h = cc
append-ne-empty (String.◌∷◌ c s) t h = rw cons-append

module _ (d : Deps) where
  place_cast : (x : ExecutionPlace) → d.enum_cast execution_places (execution_place_name x) ≡ some x
  unfolding lower
  place_cast shared = rw d.enum_cast-eq-lookup_lower
  place_cast scatter = rw d.enum_cast-eq-lookup_lower

  -- An enabled [pbs] section that `dumpPBS` writes into any key file is read back unchanged.
  pub load-dump_pbs :
      (pbs old : AfPbs) (file : d.Store)
      → pbs.enabled ≡ true
      → load_pbs d (dump_pbs d pbs file) old ≡ ok pbs
  unfolding load_pbs dump_pbs
  load-dump_pbs pbs old file on = rw on (simp (reads, d.has_group-set_value, place_cast))

  kind_kept : {kind : String} → IsOfedKind kind → normalize_ofed_kind d kind ≡ some kind
  unfolding normalize_ofed_kind lower
  kind_kept (inl e) = simp (e, d.enum_cast-eq-lookup_lower)
  kind_kept (inr (inl e)) = simp (e, d.enum_cast-eq-lookup_lower)
  kind_kept (inr (inr e)) = simp (e, d.enum_cast-eq-lookup_lower)

  kind_filled : {kind : String} → IsOfedKind kind → is_empty kind ≡ false
  kind_filled (inl e) = rw e
  kind_filled (inr (inl e)) = rw e
  kind_filled (inr (inr e)) = rw e

  -- An enabled [ofed] section with a kind in small letters and a nonempty version, written into
  -- any key file, is read back unchanged.
  pub load-dump_ofed :
      (ofed old : AfOfed) (file : d.Store) (version : String)
      → ofed.enabled ≡ true
      → IsOfedKind ofed.kind
      → ofed.version ≡ some version
      → is_empty version ≡ false
      → load_ofed d (dump_ofed d ofed file) old ≡ ok ofed
  unfolding load_ofed dump_ofed
  load-dump_ofed ofed old file version on kind v filled =
      rw (on, v) (simp (reads, d.has_group-set_value, kind_filled kind, kind_kept kind, filled))

  pub join-ne-empty :
      (x : String) (xs : List String) → IsToken x → is_empty (d.join_values (x ∷ xs)) ≡ false
  join-ne-empty x [] t = rw d.join_values-one t.0
  join-ne-empty x (y ∷ ys) t =
      rw d.join_values-cons
        (append-ne-empty (x <> ", ") (d.join_values (y ∷ ys)) (append-ne-empty x ", " t.0))

  enabled-joined :
      (xs : List String) → All IsToken xs → enabled_values d (some (d.join_values xs)) ≡ xs
  enabled-joined [] h = rw d.join_values-nil
  enabled-joined (x ∷ xs) h =
      rw (join-ne-empty x xs h.0) (d.split_values-join_values (x ∷ xs) (λ e. cc) h)

  repositories_read :
      (enabled : Option (List String)) (file : d.Store)
      → AreTokens enabled
      → Lacks d file "repositories"
      → load_repositories d
          (dump_repositories d (record { enabled = enabled }) file)
          (record { enabled = none })
        ≡ ok (record { enabled = enabled })
  unfolding load_repositories dump_repositories
  repositories_read none file h lacks = simp lacks
  repositories_read (some xs) file h lacks =
      simp (reads, d.has_group-set_value, enabled-joined xs h)

  ohpc_read :
      (enabled : Option (List String)) (file : d.Store)
      → AreTokens enabled
      → Lacks d file "ohpc"
      → load_ohpc d (dump_ohpc d (record { enabled = enabled }) file) (record { enabled = none })
        ≡ ok (record { enabled = enabled })
  unfolding load_ohpc dump_ohpc
  ohpc_read none file h lacks = simp lacks
  ohpc_read (some xs) file h lacks = simp (reads, d.has_group-set_value, enabled-joined xs h)

  -- A choice of repositories, none, empty or a list of names without commas and spaces, written
  -- into a key file without that group, is what a new answerfile reads; so is a choice of OpenHPC
  -- bundles.
  pub load-dump_choices :
      (repositories : AfRepositories) (ohpc : AfOhpc) (file : d.Store)
      → AreTokens repositories.enabled
      → AreTokens ohpc.enabled
      → Lacks d file "repositories"
      → Lacks d file "ohpc"
      → (load_repositories d (dump_repositories d repositories file) (record { enabled = none })
          ≡ ok repositories)
        × (load_ohpc d (dump_ohpc d ohpc file) (record { enabled = none }) ≡ ok ohpc)
  load-dump_choices repositories ohpc file r o lacks_r lacks_o =
      (repositories_read repositories.enabled file r lacks_r, ohpc_read ohpc.enabled file o lacks_o)
