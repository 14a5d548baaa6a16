-- ===== src/Machine/Topology.antt =====
-- The processors of a machine: src/models/cpu.cpp. `std::size_t` has 64 bits, so a product is taken
-- modulo 2 ^ 64.
use opencattus.Base.{
  ℕ, ◌*◌, ◌%◌, ◌^◌, ◌||◌, not, if◌then◌else◌, ◌==◌, Result, ok, err, ◌>>◌, runtime_error, says,
}

-- The members of class CPU.
pub record Cpu : Type 0 where
  pub sockets : ℕ
  pub cores : ℕ
  pub threads : ℕ
  pub cores_per_socket : ℕ
  pub threads_per_core : ℕ

-- `CPU::CPU()`
abbrev pub blank_cpu : Cpu
blank_cpu = record {
  sockets = 0;
  cores = 0;
  threads = 0;
  cores_per_socket = 0;
  threads_per_core = 0;
}

-- The product of two values of `std::size_t`.
abbrev pub times : ℕ → ℕ → ℕ
times a b = (a * b) % 2 ^ 64

-- `CPU::checkTopology`
unfoldable pub check_topology : Cpu → Result (Unit {0})
check_topology cpu =
    if cpu.sockets == 0
      || cpu.cores == 0
      || cpu.threads == 0
      || cpu.cores_per_socket == 0
      || cpu.threads_per_core == 0
    then err (runtime_error (says "Invalid number of processors"))
    else if not (cpu.threads == times cpu.cores cpu.threads_per_core)
    then err (runtime_error (says "Total number of threads is not valid"))
    else if not (cpu.cores == times cpu.sockets cpu.cores_per_socket)
    then err (runtime_error (says "Total number of cores is not valid"))
    else ok tt

-- The constructor for all members.
unfoldable pub new_full_cpu : ℕ → ℕ → ℕ → ℕ → ℕ → Result Cpu
unfolding check_topology
new_full_cpu sockets cores threads cores_per_socket threads_per_core = do
  let cpu : Cpu = record {
    sockets = sockets;
    cores = cores;
    threads = threads;
    cores_per_socket = cores_per_socket;
    threads_per_core = threads_per_core;
  }
  check_topology cpu
  ok cpu

-- The constructor for the counts of one level each.
unfoldable pub new_cpu : ℕ → ℕ → ℕ → Result Cpu
unfolding new_full_cpu
new_cpu sockets cores_per_socket threads_per_core =
    new_full_cpu sockets (times cores_per_socket sockets)
      (times (times threads_per_core cores_per_socket) sockets) cores_per_socket threads_per_core
