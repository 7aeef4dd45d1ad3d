-- ===== src/Scheduler/Priority.antt =====
-- The order that `PackWorkloads` asks `sort.Slice` for.
use gpuautoscaler.Prelude.{◌≡◌, true, false, arith}
use gpuautoscaler.Scheduler.Model.{GpuWorkload}
use gpuautoscaler.Scheduler.Pack.{less}

-- The comparison is a strict weak order, as `sort.Slice` requires: no workload is before itself, being
-- before is transitive, and so is being neither before nor after.
pub less-IsStrictWeak :
    (a b c : GpuWorkload)
    → (less a a ≡ false)
      × (less a b ≡ true → less b c ≡ true → less a c ≡ true)
      × (less a b ≡ false
          → less b a ≡ false
          → less b c ≡ false
          → less c b ≡ false
          → (less a c ≡ false) × (less c a ≡ false))
unfolding less
less-IsStrictWeak a b c = (ground arith, ground arith, ground arith)
