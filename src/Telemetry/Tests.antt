-- ===== src/Telemetry/Tests.antt =====
-- Examples for the metrics and the counting core.
use cigar.Prelude.{◌≡◌, some, List, [], ◌∷◌, if◌then◌else◌}
use cigar.Prelude.Int.{ℤ, pos, negsuc, leb_ℤ}
use cigar.Text.{Text, codes}
use cigar.Telemetry.{Metrics, Counter, new_metrics}
use cigar.Telemetry.Counts.{Call, webhook, command, user, after_calls, Counts, after_calls-Counts}
use cigar.Telemetry.LogCore.{Core, Entry, counted_run, bare_run, count_warnings, counted_run-bare}

abbrev some_calls : List Call
some_calls =
    user (pos 4)
    ∷ webhook (pos 42) 200
    ∷ command (pos 42) (codes "help")
    ∷ user (pos 0)
    ∷ webhook (pos 0) 401
    ∷ user (pos 4)
    ∷ []

after_calls-Counts_example :
    (m : Metrics) × (after_calls (some new_metrics) some_calls ≡ some m) × Counts some_calls m
after_calls-Counts_example = after_calls-Counts some_calls

-- A core at the level error.
abbrev errors_only : Core
errors_only = record { enabled = leb_ℤ (pos 2); writes = λ e. leb_ℤ (pos 2) e.level }

abbrev entry : ℤ → Text → Entry
entry level name = record { level = level; logger_name = name; message = codes "m" }

abbrev name_of : ℤ → Text
name_of level = if leb_ℤ (pos 2) level then codes "error" else codes "warn"

abbrev some_entries : List Entry
some_entries = entry (pos 1) (codes "queue") ∷ entry (pos 2) [] ∷ entry (negsuc 0) [] ∷ []

abbrev no_count : Counter
no_count a b = 0

counted_run-bare_example :
    counted_run name_of errors_only no_count some_entries
    ≡ (count_warnings name_of no_count some_entries, bare_run name_of errors_only some_entries)
counted_run-bare_example = counted_run-bare name_of errors_only no_count some_entries (λ e h. h)
