-- ===== src/Advice/Registry.antt =====
-- internal/advice/rules.go.
use cigar.Prelude.{List, [], ◌∷◌, ◌++◌}
use cigar.Float.{Float}
use cigar.Advice.{Rule}
use cigar.Advice.Cpu.{cpu_throttle}
use cigar.Advice.Java.{java_threads}
use cigar.Advice.LongJob.{long_job}
use cigar.Advice.Memory.{memory_pressure}

module _ (F : Type 0) ⦃fl : Float F⦄ where
  -- The registry as the program starts with it.
  abbrev pub built_in : List (Rule F)
  built_in = cpu_throttle F ∷ java_threads F ∷ long_job F ∷ memory_pressure F ∷ []

  -- `Register`: the registry behind the call.
  abbrev pub register : List (Rule F) → Rule F → List (Rule F)
  register registry r = registry ++ r ∷ []
