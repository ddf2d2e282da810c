-- ===== src/Advice/Firing.antt =====
-- The rules of cpu_throttle.go, java_threads.go, long_job.go and memory_pressure.go: when they advise.
use cigar.Prelude.{
  ◌≡◌, ◌≢◌, ◌↔◌, ◌⊎◌, Bool, true, false, Option, none, some, List, [], ◌∷◌, ◌++◌, map, All,
}
use cigar.Prelude.Int.{pos, ◌<ℤ◌}
use cigar.Text.{Text, codes}
use cigar.Float.{Float}
use cigar.Metrics.{JobUsage}
use cigar.Advice.{Facts, Thresholds, Advice}
use cigar.Advice.BuildTool.{java, strip_ansi, is_maven, is_gradle, is_java}
use cigar.Advice.Memory.{ratio_of}

-- The trace, without its colours, shows a build of Maven, of Gradle or of Java.
abbrev pub ShowsJava : Text → Type 0
ShowsJava s = (is_maven s ≡ true) ⊎ (is_gradle s ≡ true) ⊎ (is_java s ≡ true)

abbrev pub when : Bool → Text → List Text
when true name = name ∷ []
when false name = []

-- What a rule gives: at most one advice, on the job, in the rule's name, where `P` holds.
record Said (job name : Text) (P : Type 0) (advice : List Advice) : Type 0 where
  said : Bool
  said_iff : (said ≡ true) ↔ P
  rule_is : map (λ (a : Advice). a.rule) advice ≡ when said name
  about : All (λ (a : Advice). a.job ≡ job) advice

module _ {F : Type 0} ⦃fl : Float F⦄ where
  -- The ratio of throttled periods is known and reaches a threshold above zero.
  abbrev pub Throttled : Option (JobUsage F) → Thresholds F → Type 0
  Throttled none t = ⊥
  Throttled (some u) t =
      (fl.lt (fl.of_uint 0) t.throttle_warn_ratio ≡ true)
      × (fl.le t.throttle_warn_ratio u.throttled_ratio ≡ true)

  -- The peak is known, and is not below a threshold above zero of a limit that is set.
  abbrev pub Pressed : Option (JobUsage F) → Thresholds F → Type 0
  Pressed none t = ⊥
  Pressed (some u) t =
      (u.memory_limit_bytes ≢ 0)
      × (fl.le t.memory_pressure_ratio (fl.of_uint 0) ≡ false)
      × (fl.lt (ratio_of F u) t.memory_pressure_ratio ≡ false)

  -- Which rules advise on a job, and for what reason.
  pub record Verdict (f : Facts F) (t : Thresholds F) (rules : List Text) : Type 0 where
    pub cpu : Bool
    pub java : Bool
    pub long : Bool
    pub memory : Bool
    pub cpu_iff : (cpu ≡ true) ↔ Throttled f.usage t
    pub java_iff : (java ≡ true) ↔ (Throttled f.usage t × ShowsJava (strip_ansi 0 f.trace))
    pub long_iff : (long ≡ true) ↔ ((pos 0 <ℤ t.long_job) × (t.long_job <ℤ f.duration))
    pub memory_iff : (memory ≡ true) ↔ Pressed f.usage t
    pub names :
        rules
        ≡ when cpu (codes "cpu-throttle")
          ++ (when java (codes "java-threads")
              ++ (when long (codes "long-job") ++ when memory (codes "memory-pressure")))
