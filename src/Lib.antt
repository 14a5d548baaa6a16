-- ===== src/Lib.antt =====
-- Verification library of OpenCATTUS, a program that sets up a cluster: it reads an answerfile,
-- or asks for its contents, makes a model of the cluster, its networks, connections, nodes and
-- operating system, and configures the machines with it.
--
-- The parts, and where they are modelled:
--   * the answerfile: src/models/answerfile.cpp and include/opencattus/models/answerfile.h.
--     AnswerFile.antt has the sections as records, AnswerFile/Checks.antt the free functions that
--     check fields, networks and the inventory of nodes, AnswerFile/Load.antt and
--     AnswerFile/Nodes.antt the member functions load*, AnswerFile/Dump.antt the member functions
--     dump*. A function load_x stands for loadX, and takes the key file and the old value of the
--     section that the member function changes; dump_x stands for dumpX and returns the key file.
--     AnswerFile/Sections/ has the round trips of the sections, AnswerFile/Checks/ and
--     AnswerFile/Nodes/ what the checks accept, AnswerFile/Accepted.antt what holds of an
--     answerfile that loadOptions accepts.
--   * the key file: src/services/files.cpp. KeyFile.antt has the class over the operations of
--     Glib::KeyFile, KeyFile/View.antt a key file's group as a function from keys to texts.
--   * the operating system: src/models/os.cpp and include/opencattus/models/os.h. Os.antt has the
--     members and setters, Os/Version.antt the version text, Os/Probe.antt the probe of the
--     running system; Os/Release.antt, Os/Versioned.antt, Os/RoundTrip.antt,
--     Os/Host.antt, Os/Lines.antt, Os/Spelling.antt and Os/Named.antt what holds of them.
--   * networks: src/network.cpp and include/opencattus/network.h. Network.antt has the members,
--     constructors and setters, Network/Cidr.antt the table of subnet masks, which the answerfile
--     checks use too, Network/Routes.antt the parsers of the gateway and Network/Fetch.antt what
--     is read off the system; Network/Configured.antt what the constructors make.
--   * connections: src/connection.cpp and include/opencattus/connection.h. Connection.antt has
--     the members, constructors and setters; Connection/Formats.antt and
--     Connection/Configured.antt what they accept. The pointer to the network is a NetworkRef: the
--     network's place in the cluster, with its profile and type, which nothing changes.
--   * the cluster: src/models/cluster.cpp and include/opencattus/models/cluster.h, with the
--     members of the queue systems, of Postfix and of the time zone. Cluster.antt has the
--     members, Cluster/Networks.antt and Cluster/Disk.antt the operations on networks and on the
--     disk image, Cluster/Support.antt validateProvisionerSupport. fillData, which configures a
--     cluster from an answerfile, is Cluster/Fill.antt over Cluster/Fetched.antt (the networks),
--     Cluster/Attach.antt (the connections of the head node), Cluster/Settings.antt (the other
--     members) and Cluster/Nodes.antt (the loop over the nodes); dumpData, which writes a cluster
--     into an answerfile, is Cluster/Dump.antt over Cluster/Sections.antt. What holds of them:
--     Cluster/Whole.antt over Cluster/Kept.antt, Cluster/Given.antt, Cluster/Finished.antt,
--     Cluster/Stepped.antt, Cluster/Networked.antt, Cluster/Wired.antt,
--     Cluster/Attached.antt and Cluster/Configured.antt, for one node Cluster/Nodes/, for what is
--     written back Cluster/Restored.antt, and Cluster/DiskTaken.antt and Cluster/Supported.antt. A change
--     through the reference that getNetwork returns is update_network.
--   * machines: src/models/server.cpp, node.cpp, headnode.cpp and cpu.cpp and
--     src/services/bmc.cpp, in Machine.antt, Machine/Names.antt and Machine/Topology.antt.
--     Machine/Named.antt and Machine/Accepting.antt have what holds of them.
--   * the disk image: src/diskImage.cpp, in DiskImage.antt.
--   * the OFED installer: src/ofed.cpp. Ofed.antt has the choice of the install mode, installed
--     and install, Ofed/Commands.antt the texts of the commands, Ofed/Newest.antt and
--     Ofed/Kernels.antt the searches for kernels and packages. Runner.antt has the runner: a
--     procedure extends the list of the actions that were done, and the answers of the system may
--     depend on that list. Runner/Traces.antt, Ofed/Steps.antt, Ofed/Modes.antt and
--     Ofed/Planned.antt have which actions are done in which order, Ofed/Latest.antt which kernel
--     is found.
--   * the machine that the program runs on: the record Site of Site.antt, with the options, the
--     files, the interfaces and the addresses that the program reads.
--   * enumerations: Enums.antt, with the names that magic_enum gives their enumerators.
-- Base.antt and its children have the shared names, texts, decimal numbers, std::stoul, and
-- exceptions as values, Base/Search.antt the searches in a text and std::stoi. Examples.antt has
-- the theorems at concrete values.
--
-- State and errors. A member function that changes its object is a function from the old value to
-- the new one. A function that may throw returns a Result, `err` with the class of the exception
-- and the arguments of its message; the state that an exception leaves behind is not modelled.
-- Numbers are natural numbers; std::size_t is bounded by 2^64 (`size_limit`), `unsigned` by 2^32,
-- std::stoi by 2^31, written out where the source converts. Every loop is a recursion on a list
-- or on a text; to_string has the number itself as fuel, and each round divides it by ten.
--
-- Third-party code is the record Deps of Deps.antt: boost::asio addresses, boost::split and join,
-- boost::lexical_cast, magic_enum, one format of fmt, and Glib::KeyFile, with the documented
-- behaviour that proofs use as laws: an address reads back from its text, a key file keeps what
-- is written, names are found in the table of enumerators, and a joined list without separators
-- in its entries is split into it. Deps/Assoc.antt has concrete functions with these laws. The
-- regular expressions of the source are written out as character classes. What uname, getifaddrs
-- and the os-release file answer is an argument.
--
-- Not modelled: reading and writing the files themselves, the members that only print, the
-- services that run commands, write configuration files or build scripts (but the OFED
-- installer), the dialogs (src/presenter, src/view), the command line, D-Bus, and logging. An
-- exception in fillData leaves a cluster behind that is configured in part; the model returns no
-- cluster there.
pub mod Base
pub mod Deps
pub mod Enums
pub mod KeyFile
pub mod AnswerFile
pub mod Machine
pub mod Site
pub mod DiskImage
pub mod Cluster
pub mod Runner
pub mod Ofed
pub mod Network
pub mod Connection
pub mod Os
pub mod Examples
