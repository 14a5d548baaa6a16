-- ===== src/Cluster/Networks.antt =====
-- The networks of the cluster: `getNetwork` and `addNetwork` of src/models/cluster.cpp.
use opencattus.Base.{
  ◌+◌, ℕ, String, Option, none, some, List, [], ◌∷◌, ◌++◌, if◌then◌else◌, Result, ok, err, ◌>>=◌,
  runtime_error, about,
}
use opencattus.Enums.{Profile, external, NetworkType, ethernet}
use opencattus.Deps.{Deps}
use opencattus.Network.{Network, new_network, new_configured_network, make_all}
use opencattus.Connection.{NetworkRef}
use opencattus.Machine.{same_profile, profile_name}
use opencattus.Cluster.{Cluster}

module _ {Address : Type 0} where
  -- The first network of a profile.
  unfoldable pub find_network : Profile → List (Network Address) → Option (Network Address)
  find_network profile [] = none
  find_network profile (network ∷ networks) =
      if same_profile network.profile profile then some network else find_network profile networks

  -- The place of the first network of a profile.
  unfoldable pub place_of : Profile → List (Network Address) → ℕ
  place_of profile [] = 0
  place_of profile (network ∷ networks) =
      if same_profile network.profile profile then 0 else 1 + place_of profile networks

  abbrev pub or_no_network : Profile → Option (Network Address) → Result (Network Address)
  or_no_network profile none =
      err (runtime_error (about "Cannot get any network with the profile" (profile_name profile)))
  or_no_network profile (some network) = ok network

  -- `Cluster::getNetwork`
  unfoldable pub get_network : Profile → Cluster Address → Result (Network Address)
  unfolding find_network
  get_network profile cluster = or_no_network profile (find_network profile cluster.networks)

  -- `&getNetwork(profile)`
  unfoldable pub network_pointer : Profile → Cluster Address → Result NetworkRef
  unfolding place_of
  network_pointer profile cluster = do
    found ← get_network profile cluster
    ok (record {
      place = place_of profile cluster.networks;
      profile = found.profile;
      kind = found.kind;
    })

  -- `Cluster::addNetwork` for a network.
  abbrev pub add_network : Network Address → Cluster Address → Cluster Address
  add_network network cluster = record cluster { networks = cluster.networks ++ (network ∷ []) }

  -- The first network of a profile, changed through its reference.
  unfoldable pub update_network :
      Profile → Network Address → List (Network Address) → List (Network Address)
  update_network profile changed [] = []
  update_network profile changed (network ∷ networks) =
      let rest = update_network profile changed networks in
      if same_profile network.profile profile then changed ∷ networks else network ∷ rest

module _ (d : Deps) where
  -- The other overloads of `Cluster::addNetwork`.
  abbrev pub add_profile_network : Profile → NetworkType → Cluster d.Address → Cluster d.Address
  add_profile_network profile kind cluster = add_network (new_network d profile kind) cluster

  abbrev pub add_default_network : Cluster d.Address → Cluster d.Address
  add_default_network cluster = add_profile_network external ethernet cluster

  unfoldable pub add_configured_network :
      Profile
      → NetworkType
      → String
      → String
      → String
      → ℕ
      → String
      → List d.Address
      → Cluster d.Address
      → Result (Cluster d.Address)
  add_configured_network profile kind ip mask gateway vlan domain_name nameservers cluster = do
    network ← new_configured_network d profile kind ip mask gateway vlan domain_name nameservers
    ok (add_network network cluster)

  unfoldable pub add_configured_network_text :
      Profile
      → NetworkType
      → String
      → String
      → String
      → ℕ
      → String
      → List String
      → Cluster d.Address
      → Result (Cluster d.Address)
  unfolding add_configured_network
  add_configured_network_text profile kind ip mask gateway vlan domain_name nameservers cluster = do
    addresses ← make_all d nameservers
    add_configured_network profile kind ip mask gateway vlan domain_name addresses cluster
