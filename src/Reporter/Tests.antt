-- ===== src/Reporter/Tests.antt =====
-- The report and the advice of one pipeline.
use cigar.Prelude.{ℕ, ◌≡◌, refl, true, [], ◌∷◌, arith, All, map, filter}
use cigar.Prelude.Int.{pos}
use cigar.Prelude.Result.{ok}
use cigar.Text.{codes}
use cigar.Advice.{Engine}
use cigar.Advice.Lazy.{built_in-Honest}
use cigar.Advice.Registry.{built_in}
use cigar.Report.{has_usage, totals}
use cigar.Report.Bytes.{human_bytes}
use cigar.Report.Format.{opt_bytes}
use cigar.Report.Render.{render, tables, summary, rows, row, usage_row}
use cigar.Reporter.{job_usage, process_pipeline, advise_jobs}
use cigar.Reporter.Laziness.{eager, wants, advise_jobs-Eager}
use cigar.Reporter.Posting.{IsSigned, Tells, process_pipeline-Signed, process_pipeline-Tells}
use cigar.Fixtures.{toy_hmac, whole, a_reporter, build_job, skipped_job}

process_pipeline-Signed_example :
    All
      (IsSigned toy_hmac a_reporter (pos 12))
      (process_pipeline toy_hmac a_reporter
        (pos 3)
        (pos 12)
        (pos 0)
        (codes "main")
        (codes "success")).posts
process_pipeline-Signed_example =
    process_pipeline-Signed toy_hmac a_reporter (pos 3) (pos 12) (pos 0) (codes "main")
      (codes "success") refl (12, refl, omega arith) (λ ne. absurd (ne refl))
      (λ m e. (7, cc, omega arith))

abbrev an_engine : Engine ℕ
an_engine = record {
  rules = built_in ℕ;
  th = record { throttle_warn_ratio = 1; long_job = pos 600000000000; memory_pressure_ratio = 1 };
}

advise_jobs-Eager_example :
    ((advise_jobs a_reporter an_engine (pos 3) (build_job ∷ skipped_job ∷ [])).1
      ≡ eager a_reporter an_engine (pos 3) (build_job ∷ skipped_job ∷ []))
    × ((advise_jobs a_reporter an_engine (pos 3) (build_job ∷ skipped_job ∷ [])).0
        ≡ map
            (λ j. j.id)
            (filter (wants a_reporter an_engine (pos 3)) (build_job ∷ skipped_job ∷ [])))
advise_jobs-Eager_example =
    advise_jobs-Eager a_reporter an_engine (pos 3) (build_job ∷ skipped_job ∷ [])
      (built_in-Honest ℕ an_engine.th)

posted :
    (process_pipeline toy_hmac a_reporter
      (pos 3)
      (pos 12)
      (pos 7)
      (codes "main")
      (codes "success")).result
    ≡ ok true
unfolding process_pipeline render has_usage job_usage tables summary human_bytes totals rows row
    usage_row opt_bytes
posted = refl

process_pipeline-Tells_example :
    Tells toy_hmac a_reporter
      (pos 3)
      (pos 7)
      (codes "main")
      (process_pipeline toy_hmac a_reporter
        (pos 3)
        (pos 12)
        (pos 7)
        (codes "main")
        (codes "success"))
      true
process_pipeline-Tells_example =
    process_pipeline-Tells toy_hmac a_reporter (pos 3) (pos 12) (pos 7) (codes "main")
      (codes "success") true posted
