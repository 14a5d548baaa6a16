-- ===== src/Cluster/Nodes/Dumped.antt =====
-- A node that `fillData` has made and `dumpData` of src/models/cluster.cpp writes back.
use opencattus.Base.{ℕ, String, ◌≡◌, refl, sym, ap, ◌∙◌, Option, none, some}
use opencattus.Base.Text.{lower}
use opencattus.Base.Decimal.{to_string}
use opencattus.Base.Stoul.{stoul-to_string, stoul_bounded}
use opencattus.Deps.{Deps}
use opencattus.AnswerFile.{AfNode}
use opencattus.Os.{Os}
use opencattus.Machine.{Bmc, Node}
use opencattus.Cluster.Dump.{bmc_into, dump_node}
use opencattus.Cluster.Nodes.Filled.{IsRead, IsBmcOf, IsNodeOf}

-- Two fields that hold texts of one number.
abbrev pub IsSameNumber : Option String → Option String → Type 0
IsSameNumber a b = (n : ℕ) × IsRead a n × IsRead b n

-- The fields of the controller: those of the source, or none.
abbrev pub IsSameBmc : {Address : Type 0} → AfNode Address → AfNode Address → Option Bmc → Type 0
IsSameBmc source out none = out.bmc_address ≡ none
IsSameBmc source out (some bmc) =
    (out.bmc_address ≡ source.bmc_address)
    × (out.bmc_username ≡ source.bmc_username)
    × (out.bmc_password ≡ source.bmc_password)
    × IsSameNumber source.bmc_serialport out.bmc_serialport
    × IsSameNumber source.bmc_serialspeed out.bmc_serialspeed

printed : (o : Option String) (n : ℕ) → IsRead o n → IsSameNumber o (some (to_string n))
printed o n (s, e, r) = (n, (s, e, r), (to_string n, refl, stoul-to_string n (stoul_bounded s r)))

module _ (d : Deps) where
  -- What is written for a node, by what it was made of.
  pub record IsDumpOf (source out : AfNode d.Address) (bmc : Option Bmc) : Type 0 where
    pub same_hostname : out.hostname ≡ source.hostname
    pub same_start : out.start_ip ≡ source.start_ip
    pub lower_mac :
        (mac : String) × (source.mac_address ≡ some mac) × (out.mac_address ≡ some (lower mac))
    pub same_sockets : IsSameNumber source.sockets out.sockets
    pub same_cores : IsSameNumber source.cores_per_socket out.cores_per_socket
    pub same_threads : IsSameNumber source.threads_per_core out.threads_per_core
    pub same_bmc : IsSameBmc source out bmc
    pub no_password : out.root_password ≡ none

  -- What is written of a node but its controller.
  abbrev plain : Node d.Address → AfNode d.Address
  plain node = dump_node d (record node { server = record node.server { bmc = none } })

  controlled :
      (os : Os) (source : AfNode d.Address) (node : Node d.Address)
      → IsNodeOf d os source node
      → (bmc : Option Bmc) → IsBmcOf source bmc
      → IsDumpOf source (bmc_into d bmc (plain node)) bmc
  unfolding dump_node
  controlled os source node n none c = record {
    same_hostname = sym n.named;
    same_start = n.started.1 ∙ sym n.started.0;
    lower_mac = (n.mac.0, n.mac.1, ap some n.mac.3);
    same_sockets = printed source.sockets _ n.sockets;
    same_cores = printed source.cores_per_socket _ n.cores;
    same_threads = printed source.threads_per_core _ n.threads;
    same_bmc = refl;
    no_password = refl;
  }
  controlled os source node n (some bmc) (a, u, p, port, speed) = record {
    same_hostname = sym n.named;
    same_start = n.started.1 ∙ sym n.started.0;
    lower_mac = (n.mac.0, n.mac.1, ap some n.mac.3);
    same_sockets = printed source.sockets _ n.sockets;
    same_cores = printed source.cores_per_socket _ n.cores;
    same_threads = printed source.threads_per_core _ n.threads;
    same_bmc = (
      sym a.0,
      sym u.0,
      sym p.0,
      printed source.bmc_serialport _ port,
      printed source.bmc_serialspeed _ speed,
    );
    no_password = refl;
  }

  -- The dump of a node that was made of a node of an answerfile has that node's name and address,
  -- its MAC address in lower case, the same processor counts and the same controller, and no root
  -- password.
  pub dump_node-IsDumpOf :
      (os : Os) (source : AfNode d.Address) (node : Node d.Address)
      → IsNodeOf d os source node
      → IsDumpOf source (dump_node d node) node.server.bmc
  unfolding dump_node
  dump_node-IsDumpOf os source node n = controlled os source node n node.server.bmc n.controller
