-- ===== src/Machine/Accepting.antt =====
-- The processor counts that the constructors of src/models/cpu.cpp accept.
use opencattus.Base.{
  ℕ, zero, suc, ◌*◌, ◌^◌, ◌≤◌, ◌<◌, ◌≡◌, refl, ◌≢◌, ◌↔◌, ok, arith, sym, subst, ◌∙◌,
}
use opencattus.Machine.Topology.{Cpu, times, check_topology, new_full_cpu, new_cpu}

le-times : (a b : ℕ) → b ≢ 0 → a ≤ a * b
le-times a zero h = absurd (h refl)
le-times a (suc b) h = omega arith

times-ne_zero : (a b : ℕ) → a ≢ 0 → b ≢ 0 → a * b ≢ 0
times-ne_zero zero b h k = absurd (h refl)
times-ne_zero (suc a) zero h k = absurd (k refl)
times-ne_zero (suc a) (suc b) h k = omega arith

times-small : (a b : ℕ) → a * b < 2 ^ 64 → times a b ≡ a * b
times-small a b h = omega arith

-- The processors with so many sockets, cores in each, and threads in each core.
abbrev pub product_cpu : ℕ → ℕ → ℕ → Cpu
product_cpu sockets cores threads = record {
  sockets = sockets;
  cores = sockets * cores;
  threads = sockets * cores * threads;
  cores_per_socket = cores;
  threads_per_core = threads;
}

module _ (s c t : ℕ) (small : s * c * t < 2 ^ 64) where
  accepted : s ≢ 0 → c ≢ 0 → t ≢ 0 → new_cpu s c t ≡ ok (product_cpu s c t)
  unfolding new_cpu new_full_cpu check_topology
  accepted hs hc ht =
      let core : s * c ≤ s * c * t = le-times (s * c) t ht in
      let core_ne = times-ne_zero s c hs hc in
      let thread_ne = times-ne_zero (s * c) t core_ne ht in
      let inner : t * c ≤ t * c * s = le-times (t * c) s hs in
      let e1 : times c s ≡ s * c = omega arith in
      let e0 : times t c ≡ t * c = omega arith in
      let e2 : times (times t c) s ≡ s * c * t = rw e0 (omega arith) in
      let e3 : times (s * c) t ≡ s * c * t = omega arith in
      let e4 : times s c ≡ s * c = omega arith in
      rw (e1, e2) (ground (arith, e3, e4, hs, hc, ht, core_ne, thread_ne))

  returned : {cpu : Cpu} → new_cpu s c t ≡ ok cpu → (s ≢ 0) × (c ≢ 0) × (t ≢ 0)
  unfolding new_cpu new_full_cpu check_topology
  returned h = (ground arith, ground arith, ground arith)

  -- For counts whose product fits in 64 bits, the constructor for one count of each level returns
  -- exactly when no count is zero, and then the processors have the product of the first two as
  -- cores and the product of all three as threads.
  pub new_cpu-ok_iff :
      {cpu : Cpu}
      → (new_cpu s c t ≡ ok cpu) ↔ ((s ≢ 0) × (c ≢ 0) × (t ≢ 0) × (product_cpu s c t ≡ cpu))
  new_cpu-ok_iff {cpu} = (forth, back)
    where
      forth : new_cpu s c t ≡ ok cpu → (s ≢ 0) × (c ≢ 0) × (t ≢ 0) × (product_cpu s c t ≡ cpu)
      forth h =
          let (hs, hc, ht) = returned h in
          let e : ok (product_cpu s c t) ≡ ok cpu = sym (accepted hs hc ht) ∙ h in (hs, hc, ht, cc)

      back : (s ≢ 0) × (c ≢ 0) × (t ≢ 0) × (product_cpu s c t ≡ cpu) → new_cpu s c t ≡ ok cpu
      back (hs, hc, ht, e) = subst (λ x. new_cpu s c t ≡ ok x) e (accepted hs hc ht)
