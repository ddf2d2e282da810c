-- ===== src/Cli/Tests.antt =====
-- An example for `run --job`: a job with a pod that has series.
use cigar.Prelude.{ℕ, none, some, [], ◌∷◌}
use cigar.Prelude.Int.{pos}
use cigar.Prelude.Result.{ok}
use cigar.Text.{Text, codes}
use cigar.Metrics.{SeriesSource}
use cigar.Cli.Run.{print_job_details}
use cigar.Cli.Printing.{Shows, print_job_details-Shows}
use cigar.Fixtures.{whole, a_renderer, a_reporter}

abbrev one_point : SeriesSource Text ℕ
one_point = record {
  pod_series = λ pod start end. ok (record {
    cpu = record { label = codes "cpu"; points = record { t = 2_000_000_000; v = 3 } ∷ [] };
    memory = record { label = codes "memory"; points = [] };
    net_tx = record { label = codes "tx"; points = [] };
  });
  pod_active_span = λ pod. ok none;
}

print_job_details-Shows_example :
    Shows a_renderer a_reporter (some one_point) 1 (pos 3) (pos 12) (codes "compile") (
      print_job_details a_renderer a_reporter (some one_point) 1 (pos 3) (pos 12) (codes "compile"))
print_job_details-Shows_example =
    print_job_details-Shows a_renderer a_reporter (some one_point) 1 (pos 3) (pos 12)
      (codes "compile")
