-- ===== src/AnswerFile/Sections/Mail.antt =====
-- The mail sections of src/models/answerfile.cpp: [postfix], [postfix.relay] and [postfix.sasl].
use opencattus.Base.{
  ◌≤◌, ◌<◌, String, ◌≡◌, refl, Bool, true, Option, none, some, List, [], ◌∷◌, ok, All, value_or,
  sym, ap,
}
use opencattus.Base.Text.{lower}
use opencattus.Enums.{MailProfile, local, relay, sasl, mail_profiles, mail_profile_name}
use opencattus.Deps.{Deps, IsToken}
use opencattus.KeyFile.View.{
  Lacks, Sees, Sees-start, Sees-set_opt, Sees-frame, put, put_opt, nothing, or_else-none,
  get_string-Sees, get_string_opt-Sees, reads,
}
use opencattus.AnswerFile.{AfPostfix, Smtp, Sasl}
use opencattus.AnswerFile.Checks.Unsigned.{parse_port-to_string}
use opencattus.AnswerFile.Dump.{joined, unless_empty, dump_smtp, dump_postfix}
use opencattus.AnswerFile.Load.{load_smtp, split_unless_empty, load_postfix}
use opencattus.AnswerFile.Sections.Choices.{join-ne-empty}

-- The server settings that a profile needs: none for Local, a server for Relay, and a server with
-- a login for SASL. Ports lie between 1 and 65535.
abbrev pub SmtpFits : MailProfile → Option Smtp → Type 0
SmtpFits local smtp = smtp ≡ none
SmtpFits relay smtp =
    (m : Smtp) × (smtp ≡ some m) × (m.sasl_login ≡ none) × (0 < m.port) × (m.port ≤ 65535)
SmtpFits sasl smtp =
    (m : Smtp) × (login : Sasl) × (smtp ≡ some m)
    × (m.sasl_login ≡ some login)
    × (0 < m.port)
    × (m.port ≤ 65535)

module _ (d : Deps) where
  profile_cast : (x : MailProfile) → d.enum_cast mail_profiles (mail_profile_name x) ≡ some x
  unfolding lower
  profile_cast local = rw d.enum_cast-eq-lookup_lower
  profile_cast relay = rw d.enum_cast-eq-lookup_lower
  profile_cast sasl = rw d.enum_cast-eq-lookup_lower

  smtp_read :
      (profile : MailProfile) (smtp : Option Smtp) (file : d.Store)
      → SmtpFits profile smtp
      → load_smtp d (dump_smtp d profile smtp file) profile none ≡ ok smtp
  unfolding load_smtp dump_smtp
  smtp_read local smtp file h = simp h
  smtp_read relay smtp file (m, e, login, lo, hi) = rw e (
      simp (reads, parse_port-to_string "postfix.relay" "port" m.port lo hi)
        (ap (λ (x : Option Sasl). ok (some (record m { sasl_login = x }))) (sym login)))
  smtp_read sasl smtp file (m, l, e, login, lo, hi) = rw e (
      simp (login, reads, parse_port-to_string "postfix.sasl" "port" m.port lo hi)
        (ap (λ (x : Option Sasl). ok (some (record m { sasl_login = x }))) (sym login)))

  Sees-dump_smtp :
      (profile : MailProfile) (smtp : Option Smtp) {file : d.Store} {f : String → Option String}
      → SmtpFits profile smtp
      → Sees d file "postfix" f
      → Sees d (dump_smtp d profile smtp file) "postfix" f
  unfolding dump_smtp
  Sees-dump_smtp local smtp h s = s
  Sees-dump_smtp relay smtp (m, e, login, lo, hi) s =
      rw e (
        Sees-frame d (Sees-frame d s "postfix.relay" "server" _ refl) "postfix.relay" "port" _ refl)
  Sees-dump_smtp sasl smtp (m, l, e, login, lo, hi) s =
      simp (e, login)
        (Sees-frame d
          (Sees-frame d
            (Sees-frame d (Sees-frame d s "postfix.sasl" "server" _ refl) "postfix.sasl" "port" _
              refl)
            "postfix.sasl" "username" _ refl)
          "postfix.sasl" "password" _ refl)

  -- The entries of [postfix] that `dumpPostfix` writes.
  abbrev entries : AfPostfix → String → Option String
  entries postfix = put_opt "smtpd_tls_key_file" (unless_empty d postfix.key_file) (
      put_opt "smtpd_tls_cert_file" (unless_empty d postfix.cert_file) (
        put_opt "destination" (joined d (some postfix.destination))
          (put "profile" (mail_profile_name postfix.profile) nothing)))

  Sees-dump_postfix :
      (postfix : AfPostfix) (file : d.Store)
      → postfix.enabled ≡ true
      → SmtpFits postfix.profile postfix.smtp
      → Lacks d file "postfix"
      → Sees d (dump_postfix d postfix file) "postfix" (entries postfix)
  unfolding dump_postfix
  Sees-dump_postfix postfix file on fits lacks = simp on (
      Sees-dump_smtp postfix.profile postfix.smtp fits (
        Sees-set_opt d "smtpd_tls_key_file" _ (
          Sees-set_opt d "smtpd_tls_cert_file" _ (
            Sees-set_opt d "destination" _
              (Sees-start d "profile" (mail_profile_name postfix.profile) lacks)))))

  smtp_kept :
      (postfix : AfPostfix) (file : d.Store)
      → postfix.enabled ≡ true
      → SmtpFits postfix.profile postfix.smtp
      → load_smtp d (dump_postfix d postfix file) postfix.profile none ≡ ok postfix.smtp
  unfolding dump_postfix
  smtp_kept postfix file on fits = rw on (smtp_read postfix.profile postfix.smtp _ fits)

  path_kept : (path : String) → value_or (unless_empty d path) "" ≡ path
  path_kept String.[] = refl
  path_kept (String.◌∷◌ c s) = refl

  destination_kept :
      (xs : List String) → All IsToken xs → split_unless_empty d [] (joined d (some xs)) ≡ xs
  destination_kept [] h = refl
  destination_kept (x ∷ xs) h =
      rw (join-ne-empty d x xs h.0) (d.split_values-join_values (x ∷ xs) (λ e. cc) h)

  -- An enabled [postfix] section with the server settings that its profile needs and destinations
  -- without commas and spaces, written into a key file without that group, is read back by a new
  -- answerfile.
  pub load-dump_postfix :
      (postfix old : AfPostfix) (file : d.Store)
      → postfix.enabled ≡ true
      → SmtpFits postfix.profile postfix.smtp
      → All IsToken postfix.destination
      → Lacks d file "postfix"
      → old.smtp ≡ none
      → old.destination ≡ []
      → load_postfix d (dump_postfix d postfix file) old ≡ ok postfix
  unfolding load_postfix
  load-dump_postfix postfix old file on fits tokens lacks no_smtp no_destination =
      let s = Sees-dump_postfix postfix file on fits lacks in
      simp
        (
          s.there,
          get_string-Sees d s,
          get_string_opt-Sees d s,
          or_else-none,
          no_smtp,
          no_destination,
          profile_cast,
          destination_kept postfix.destination tokens,
          path_kept,
          smtp_kept postfix file on fits,
        )
        (ap (λ (x : Bool). ok (record postfix { enabled = x })) (sym on))
