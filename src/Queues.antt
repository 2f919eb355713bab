-- ===== src/Queues.antt =====
-- The queues of src/ogre_std/ogre_queues that keep metrics, and the instruments of
-- src/ogre_std/instruments.rs that switch these on.
pub mod Counted
use reactive_mutiny.Common.{ℕ, Bool, true, false, ◌==◌, ◌||◌, if◌then◌else◌}

pub data Instruments : Type 0 where
  uninstrumented : Instruments
  metrics_without_diagnostics : Instruments
  metrics_with_diagnostics : Instruments
  operations_tracing : Instruments
  metrics_and_tracing : Instruments

-- The bits METRICS, METRICS_DIAGNOSTICS and TRACING are 1, 2 and 4.
pub into : Instruments → ℕ
into uninstrumented = 0
into metrics_without_diagnostics = 1
into metrics_with_diagnostics = 3
into operations_tracing = 4
into metrics_and_tracing = 7

pub from : ℕ → Instruments
from instruments =
    if instruments == 0
    then uninstrumented
    else if instruments == 1
    then metrics_without_diagnostics
    else if instruments == 3
    then metrics_with_diagnostics
    else if instruments == 4
    then operations_tracing
    else if instruments == 7
    then metrics_and_tracing
    else uninstrumented

unfoldable pub metrics : Instruments → Bool
metrics uninstrumented = false
metrics metrics_without_diagnostics = true
metrics metrics_with_diagnostics = true
metrics operations_tracing = false
metrics metrics_and_tracing = true
