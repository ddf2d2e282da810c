-- ===== src/Advice/Java.antt =====
-- internal/advice/java_threads.go: the rule.
use cigar.Prelude.{Option, some, List, [], ◌∷◌, ◌++◌, if◌then◌else◌}
use cigar.Prelude.Int.{ℤ, pos, leb_ℤ}
use cigar.Text.{Text, codes}
use cigar.Text.Decimal.{format_int}
use cigar.Float.{Float}
use cigar.Metrics.{JobUsage}
use cigar.Advice.{Facts, Thresholds, Advice, Rule, throttled, millicores}
use cigar.Advice.Cpu.{not_positive, positive}
use cigar.Advice.BuildTool.{Tool, maven, gradle, java, tool_name, detect_build_tool}

abbrev pub tool_lines : Tool → Text → Text
tool_lines maven n =
    codes "```sh\n"
    ++ codes "mvn -T "
    ++ n
    ++ codes " verify   # an explicit count, not -T 1C\n"
    ++ codes "```\n\n"
    ++ codes
        "If tests fork JVMs, cap Surefire's `forkCount` too, and pin the JVM's view of the machine with `JAVA_TOOL_OPTIONS=-XX:ActiveProcessorCount="
    ++ n
    ++ codes
        "`. Never set `-XX:-UseContainerSupport` — that disables container awareness entirely.\n\n"
tool_lines gradle n =
    codes "```sh\n"
    ++ codes "./gradlew build --max-workers="
    ++ n
    ++ codes "   # or org.gradle.workers.max="
    ++ n
    ++ codes " in gradle.properties\n"
    ++ codes "```\n\n"
    ++ codes
        "Pin the JVM's view of the machine too, with `JAVA_TOOL_OPTIONS=-XX:ActiveProcessorCount="
    ++ n
    ++ codes
        "`. Never set `-XX:-UseContainerSupport` — that disables container awareness entirely.\n\n"
tool_lines java n =
    codes "```sh\n"
    ++ codes "export JAVA_TOOL_OPTIONS=-XX:ActiveProcessorCount="
    ++ n
    ++ codes "\n"
    ++ codes "```\n\n"
    ++ codes
        "That pins `Runtime.availableProcessors()`, which sizes ForkJoinPool and most library thread pools. Never set `-XX:-UseContainerSupport` — that disables container awareness entirely.\n\n"

module _ (F : Type 0) ⦃fl : Float F⦄ where
  unfoldable pub thread_hint : F → ℤ
  thread_hint limit =
      if not_positive F limit
      then pos 2
      else if leb_ℤ (pos 1) (fl.to_int limit)
      then fl.to_int limit
      else pos 1

  unfoldable pub threads_body : Tool → F → Text
  unfolding thread_hint
  threads_body tool limit =
      let n = format_int (thread_hint limit) in
      codes "The trace shows a **"
      ++ tool_name tool
      ++ codes
          "** build. Maven's `-T 1C` and Gradle's default worker count both size themselves from the *host* core count, and the JVM only derives `Runtime.availableProcessors()` from the cgroup quota when a CPU **limit** is set. With requests only, a JVM on a 64-core node builds 64-wide thread pools inside a one-core slice — which is exactly what shows up as CFS throttling.\n\n"
      ++ codes "Cap the parallelism to the CPU the pod actually gets ("
      ++ n
      ++ codes "):\n\n"
      ++ tool_lines tool n
      ++ (if positive F limit
          then codes "That "
            ++ n
            ++ codes " matches the pod's current limit of "
            ++ millicores F limit
            ++ codes ". If you also raise the CPU limit, raise this count to match.\n\n"
          else [])
      ++ codes "- <https://cwiki.apache.org/confluence/display/MAVEN/Parallel+builds+in+Maven+3>\n"
      ++ codes "- <https://docs.gradle.org/current/userguide/command_line_interface.html>\n"
      ++ codes "- <https://kestra.io/docs/administrator-guide/jvm-cpu-limits>\n"

  abbrev advise_threads : Text → Option (JobUsage F) → Option Tool → List Advice
  advise_threads job (some u) (some tool) =
      record {
        job = job;
        rule = codes "java-threads";
        title = codes "☕ Java build parallelism";
        body = threads_body tool u.cpu_limit_cores;
      }
      ∷ []
  advise_threads job _ _ = []

  unfoldable pub check_java : Facts F → Thresholds F → List Advice
  unfolding detect_build_tool
  check_java f t =
      if throttled f t then advise_threads f.name f.usage (detect_build_tool f.trace) else []

  abbrev pub java_threads : Rule F
  java_threads = record {
    name = codes "java-threads";
    check = check_java;
    wants_trace = some throttled;
  }
