-- ===== src/Correlate.antt =====
-- internal/correlate/correlate.go: the interface `Resolver`; Trace and Prom have its implementations.
pub mod Named
pub mod Prom
pub mod Trace
mod Tests
use cigar.Prelude.{Option}
use cigar.Prelude.Int.{ℤ}
use cigar.Prelude.Result.{Result}
use cigar.Text.{Text}
use cigar.Time.{Time}

-- The pod is `none` where the source returns `ok == false`.
pub record Resolver (E : Type 0) : Type 0 where
  pub pod_for_job : (project_id job_id : ℤ) → (started finished : Time) → Result E (Option Text)
