-- ===== src/Cluster/Configured.antt =====
-- What `fillData` of src/models/cluster.cpp makes of an answerfile, as a whole.
use opencattus.Base.{
  String, ◌≡◌, refl, sym, ap, ◌∙◌, subst, Option, none, some, List, [], ◌∷◌, ◌++◌, ok, after,
}
use mathlib.Core.List.{append_assoc, append-nil}
use opencattus.Enums.{Profile, external, management, service, application}
use opencattus.Deps.{Deps}
use opencattus.Site.{Site}
use opencattus.AnswerFile as answer
use opencattus.AnswerFile.{AfNetwork}
use opencattus.Network as network
use opencattus.Connection.{Connection}
use opencattus.Cluster.{Cluster}
use opencattus.Cluster.Fetched.{service_network, application_network}
use opencattus.Cluster.Networked.{IsNetworkOf, service-IsNetworkOf, application-IsNetworkOf}
use opencattus.Cluster.Attach.{
  attach_management, attach_external, attach_service_on, attach_application_on,
}
use opencattus.Cluster.Attached.{
  IsExtended, AreAttached, AreNetworksOf, shapes, shapes-append, management-IsExtended,
  external-IsExtended, behind-IsExtended,
}
use opencattus.Cluster.Fill.{fill_networks}

module _ {Address : Type 0} where
  -- The profile with its section, where the section has an interface.
  abbrev pub where_wired :
      Profile → AfNetwork Address → Option String → List (Profile × AfNetwork Address)
  where_wired profile section none = []
  where_wired profile section (some interface) = (profile, section) ∷ []

-- The profiles that an answerfile has networks for, with their sections.
abbrev pub wanted_sections :
    (d : Deps) → answer.AnswerFile d.Address d.Store → List (Profile × AfNetwork d.Address)
wanted_sections d file =
    (management, file.management)
    ∷ (external, file.external)
    ∷ (where_wired service file.service file.service.con_interface
        ++ where_wired application file.application file.application.con_interface)

module _ (d : Deps) (site : Site d) where
  AreNetworksOf-append :
      (ps qs : List (Profile × AfNetwork d.Address)) (xs ys : List (network.Network d.Address))
      → AreNetworksOf d site ps xs
      → AreNetworksOf d site qs ys
      → AreNetworksOf d site (ps ++ qs) (xs ++ ys)
  AreNetworksOf-append [] qs [] ys a b = b
  AreNetworksOf-append [] qs (x ∷ xs) ys a b = absurd a
  AreNetworksOf-append ((profile, section) ∷ ps) qs [] ys a b = absurd a
  AreNetworksOf-append ((profile, section) ∷ ps) qs (x ∷ xs) ys (a, rest) b =
      (a, AreNetworksOf-append ps qs xs ys rest b)

  AreAttached-append :
      (ps qs : List (Profile × AfNetwork d.Address)) (xs ys : List (Connection d.Address))
      → AreAttached d site ps xs
      → AreAttached d site qs ys
      → AreAttached d site (ps ++ qs) (xs ++ ys)
  AreAttached-append [] qs [] ys a b = b
  AreAttached-append [] qs (x ∷ xs) ys a b = absurd a
  AreAttached-append ((profile, section) ∷ ps) qs [] ys a b = absurd a
  AreAttached-append ((profile, section) ∷ ps) qs (x ∷ xs) ys (a, rest) b =
      (a, AreAttached-append ps qs xs ys rest b)

  same-IsExtended : (c : Cluster d.Address) → IsExtended d site [] c c
  same-IsExtended c = record {
    networks = [];
    networked = tt;
    networks_added = sym (append-nil (shapes d c.networks));
    made = [];
    attached = tt;
    connections_added = sym (append-nil c.headnode.connections);
    rest_kept = refl;
  }

  both-IsExtended :
      (ps qs : List (Profile × AfNetwork d.Address)) (a b c : Cluster d.Address)
      → IsExtended d site ps a b
      → IsExtended d site qs b c
      → IsExtended d site (ps ++ qs) a c
  both-IsExtended ps qs a b c x y = record {
    networks = x.networks ++ y.networks;
    networked = AreNetworksOf-append ps qs x.networks y.networks x.networked y.networked;
    networks_added =
        y.networks_added
        ∙ ap (λ l. l ++ shapes d y.networks) x.networks_added
        ∙ append_assoc (shapes d a.networks) (shapes d x.networks) (shapes d y.networks)
        ∙ ap (λ l. shapes d a.networks ++ l) (sym (shapes-append d x.networks y.networks));
    made = x.made ++ y.made;
    attached = AreAttached-append ps qs x.made y.made x.attached y.attached;
    connections_added =
        y.connections_added
        ∙ ap (λ l. l ++ y.made) x.connections_added
        ∙ append_assoc a.headnode.connections x.made y.made;
    rest_kept =
        y.rest_kept
        ∙ ap
            (λ (k : Cluster d.Address). record k {
              networks = c.networks;
              headnode = record k.headnode { connections = c.headnode.connections };
            })
            x.rest_kept;
  }

  service-IsExtended :
      (o : Option String) (section : AfNetwork d.Address) (c : Cluster d.Address)
      {c' : Cluster d.Address}
      → section.con_interface ≡ o
      → attach_service_on d site o section c ≡ ok c'
      → IsExtended d site (where_wired service section o) c c'
  service-IsExtended none section c {c'} given h =
      let same : c ≡ c' = cc in subst (IsExtended d site [] c) same (same-IsExtended c)
  service-IsExtended (some interface) section c given h =
      after (service_network d site interface section) _ h λ made e h1.
        behind-IsExtended d site service made interface section c
          (service-IsNetworkOf d site interface section e) given h1

  application-IsExtended :
      (o : Option String) (section : AfNetwork d.Address) (c : Cluster d.Address)
      {c' : Cluster d.Address}
      → section.con_interface ≡ o
      → attach_application_on d site o section c ≡ ok c'
      → IsExtended d site (where_wired application section o) c c'
  application-IsExtended none section c {c'} given h =
      let same : c ≡ c' = cc in subst (IsExtended d site [] c) same (same-IsExtended c)
  application-IsExtended (some interface) section c given h =
      after (application_network d site section) _ h λ made e h1.
        behind-IsExtended d site application made interface section c
          (application-IsNetworkOf d site section e) given h1

  pub networks-IsExtended :
      (file : answer.AnswerFile d.Address d.Store) (m e : network.Network d.Address)
      (c : Cluster d.Address) {c' : Cluster d.Address}
      → IsNetworkOf d site management file.management m
      → IsNetworkOf d site external file.external e
      → fill_networks d site file m e c ≡ ok c'
      → IsExtended d site (wanted_sections d file) c c'
  unfolding fill_networks
  networks-IsExtended file m e c {c'} pm pe h =
      after (attach_management d site m file.management c) _ h λ c1 e1 h1.
        after (attach_external d site e file.external c1) _ h1 λ c2 e2 h2.
          after (attach_service_on d site file.service.con_interface file.service c2) _ h2
            λ c3 e3 h3.
              both-IsExtended ((management, file.management) ∷ []) _ c c1 c'
                (management-IsExtended d site m file.management c pm e1)
                (both-IsExtended ((external, file.external) ∷ []) _ c1 c2 c'
                  (external-IsExtended d site e file.external c1 pe e2)
                  (both-IsExtended (where_wired service file.service file.service.con_interface) _
                    c2 c3 c' (service-IsExtended file.service.con_interface file.service c2 refl e3)
                    (application-IsExtended file.application.con_interface file.application c3 refl
                      h3)))
