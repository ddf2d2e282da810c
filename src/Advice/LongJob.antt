-- ===== src/Advice/LongJob.antt =====
-- internal/advice/long_job.go, with Go's print of a duration.
use cigar.Prelude.{ℕ, ◌-◌, ◌/◌, ◌%◌, ◌^◌, ◌||◌, none, List, [], ◌∷◌, ◌++◌, if◌then◌else◌, ◌==◌, ltb}
use cigar.Prelude.Int.{pos, pos_part, leb_ℤ}
use cigar.Text.{Text, codes}
use cigar.Text.Decimal.{format_nat}
use cigar.Time.{second, minute, hour}
use cigar.Report.Format.{round_second}
use cigar.Advice.{Facts, Thresholds, Advice, Rule}

-- `d.Round(time.Second).String()` of a duration that is not negative: whole seconds, or the largest
-- duration.
unfoldable pub duration_text : ℕ → Text
unfolding round_second
duration_text ns =
    let d = round_second ns in
    if d == 2 ^ 63 - 1
    then codes "2562047h47m16.854775807s"
    else (if ltb d hour then [] else format_nat (d / hour) ++ codes "h")
      ++ (if ltb d minute then [] else format_nat (d % hour / minute) ++ codes "m")
      ++ format_nat (d % minute / second)
      ++ codes "s"

module _ (F : Type 0) where
  -- Both durations are positive where they are printed.
  unfoldable pub long_body : Facts F → Thresholds F → Text
  long_body f t =
      codes "This job ran for **"
      ++ duration_text (pos_part f.duration)
      ++ codes "**, over the "
      ++ duration_text (pos_part t.long_job)
      ++ codes " budget. It is the pipeline's critical path: every push waits on it.\n\n"
      ++ codes
          "If the work splits, split it — several jobs in one stage run in parallel on separate runners:\n\n"
      ++ codes "- Break independent steps (lint, unit, integration) into separate jobs.\n"
      ++ codes
          "- Shard a long test suite with `parallel:` (or `parallel:matrix:`) and a shard flag.\n"
      ++ codes "- Move setup that repeats every run into `cache:` or a prebuilt image.\n"

  unfoldable pub check_long : Facts F → Thresholds F → List Advice
  check_long f t =
      if leb_ℤ t.long_job (pos 0) || leb_ℤ f.duration t.long_job
      then []
      else record {
        job = f.name;
        rule = codes "long-job";
        title = codes "⏱" ++ 0xfe0f ∷ codes " Long job";
        body = long_body f t;
      }
        ∷ []

  abbrev pub long_job : Rule F
  long_job = record { name = codes "long-job"; check = check_long; wants_trace = none }
