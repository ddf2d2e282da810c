-- ===== src/Advice/Tests.antt =====
-- The registry, and a job near its memory limit.
use cigar.Prelude.{map, some, Bool, List, [], refl, ℕ, ◌∷◌, ◌≡◌}
use cigar.Prelude.Int.{pos}
use cigar.Advice.{Thresholds, Facts, analyze}
use cigar.Fixtures.{a_usage}
use cigar.Advice.Registry.{built_in}
use cigar.Advice.{Advice, new_engine, engine_or}
use cigar.Advice.Order.{Distinct, count, count_sections, job_order-Distinct}
use cigar.Advice.Render.{job_order}
use cigar.Advice.Selection.{first_unknown, named, new_engine-named}
use cigar.Advice.{check_all, throttled, over_ratio}
use cigar.Advice.Cpu.{check_cpu}
use cigar.Advice.Java.{check_java}
use cigar.Advice.BuildTool.{detect_build_tool, first_tool, strip_ansi, is_maven, found}
use cigar.Advice.LongJob.{check_long}
use cigar.Advice.Memory.{check_memory}
use cigar.Command.{match_word, fold_case}
use cigar.Text.{Text, codes, text_eq}
use cigar.Fixtures.{whole}

abbrev th : Thresholds ℕ
th = record { throttle_warn_ratio = 1; long_job = pos 600000000000; memory_pressure_ratio = 1 }

abbrev requested : ℕ
requested = 500

abbrev some_advice : List Advice
some_advice =
    record { job = codes "compile"; rule = codes "long-job"; title = codes "a"; body = codes "b" }
    ∷ record { job = []; rule = codes "pipeline"; title = codes "c"; body = codes "d" }
    ∷ record {
      job = codes "compile";
      rule = codes "cpu-throttle";
      title = codes "e";
      body = codes "f";
    }
    ∷ []

job_order-Distinct_example :
    Distinct ([] ∷ job_order some_advice)
    × ((p : Advice → Bool)
        → count_sections p some_advice ([] ∷ job_order some_advice) ≡ count p some_advice)
job_order-Distinct_example = job_order-Distinct some_advice

abbrev chosen : List Text
chosen = codes "long-job" ∷ codes "cpu-throttle" ∷ codes "nope" ∷ []

new_engine-named_example :
    new_engine (built_in ℕ) th chosen
    ≡ engine_or th (named chosen (built_in ℕ)) (first_unknown (built_in ℕ) chosen)
unfolding text_eq
new_engine-named_example =
    new_engine-named (built_in ℕ) th chosen (refl, (refl, (refl, (refl, tt))))

-- Throttled, and building with Maven.
abbrev slow_job : Facts ℕ
slow_job = record {
  stage = codes "build";
  name = codes "compile";
  duration = pos 700000000000;
  usage = some a_usage;
  trace = codes "$ mvn verify";
}

-- With whole numbers the peak's share of the limit is 0, so nothing is said of the memory.
advised_rules :
    map (λ (a : Advice). a.rule) (analyze (record { rules = built_in ℕ; th = th }) slow_job)
    ≡ codes "cpu-throttle" ∷ codes "java-threads" ∷ codes "long-job" ∷ []
unfolding analyze check_all check_cpu check_java check_long check_memory throttled over_ratio
    detect_build_tool first_tool strip_ansi is_maven found match_word fold_case
advised_rules = refl
