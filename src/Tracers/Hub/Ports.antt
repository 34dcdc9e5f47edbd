-- ===== src/Tracers/Hub/Ports.antt =====
-- What a hub's record depends on, and the port that it names.
use usbtrace.Common.{ℕ, ◌+◌, ◌*◌, ◌-◌, ◌<◌, ◌≡◌, arith}
use usbtrace.Common.Int.{ℤ, pos, negsuc}
use usbtrace.Tracers.{KernelMemory, read_kptr, kptr_idx}
use usbtrace.Tracers.Hub.{hub_child}

-- The child of a port is read through one of the sixteen first slots of the hub's array, or not at
-- all: any number the caller passes as a port, memory that agrees with the kernel's there gives the
-- same child.
pub hub_child-Bounded :
    (k : KernelMemory) (pointer : ℕ → ℕ) (hub : ℕ) (port1 : ℤ)
    → ((i : ℕ)
        → i < 16
        → pointer ((k.hub hub).ports + i * 8) ≡ k.pointer ((k.hub hub).ports + i * 8))
    → hub_child (record k { pointer = pointer }) hub port1 ≡ hub_child k hub port1
unfolding hub_child kptr_idx read_kptr
hub_child-Bounded k pointer hub (negsuc n) same = ground arith
hub_child-Bounded k pointer hub (pos n) same = ground (arith, same (n - 1))
