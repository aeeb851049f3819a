-- ===== src/Instance/Examples.antt =====
-- The cleanup of a connected instance with two waiting requests.
use libdsvdc.Base.{arith}
use libdsvdc.Effects.Ends.{Ends}
use libdsvdc.Instance.{cleanup_handle}
use libdsvdc.Instance.Cleanup.{Emptied, cleanup_handle-Emptied}
use libdsvdc.Samples.{running, world, world-IsModest}

cleanup_handle-Emptied_example : Ends (λ _ t. Emptied running t) (cleanup_handle world running)
cleanup_handle-Emptied_example =
    cleanup_handle-Emptied world world-IsModest 5 running (omega arith, (omega arith, tt))
      ((λ e. absurd cc), ((λ e. absurd cc), tt))
