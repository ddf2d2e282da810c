-- ===== src/Advice.antt =====
-- internal/advice/advice.go: facts about a job, rules, and the engine that runs them.
pub mod Cpu
pub mod CpuLimits
pub mod BuildTool
pub mod Java
pub mod Memory
pub mod LongJob
pub mod Registry
pub mod Render
pub mod Firing
pub mod Lazy
pub mod Limits
pub mod Order
pub mod Selection
mod Tests
use cigar.Prelude.{
  ℕ, Bool, true, false, not, ◌&&◌, ◌||◌, Option, none, some, List, [], ◌∷◌, ◌++◌, if◌then◌else◌,
  any, filter,
}
use cigar.Prelude.Int.{ℤ}
use cigar.Prelude.Result.{Result, ok, err}
use cigar.Text.{Text, codes, text_eq}
use cigar.Text.Decimal.{format_int}
use cigar.Time.{Duration}
use cigar.Float.{Float}
use cigar.Metrics.{JobUsage}

pub record Facts (F : Type 0) : Type 0 where
  pub stage : Text
  pub name : Text
  pub duration : Duration
  pub usage : Option (JobUsage F)
  pub trace : Text

pub record Thresholds (F : Type 0) : Type 0 where
  pub throttle_warn_ratio : F
  pub long_job : Duration
  pub memory_pressure_ratio : F

pub record Advice : Type 0 where
  pub job : Text
  pub rule : Text
  pub title : Text
  pub body : Text

-- The interface `Rule`; a rule with `wants_trace` is a `TraceConsumer`, too.
pub record Rule (F : Type 0) : Type 0 where
  pub name : Text
  pub check : Facts F → Thresholds F → List Advice
  pub wants_trace : Option (Facts F → Thresholds F → Bool)

pub record Engine (F : Type 0) : Type 0 where
  pub rules : List (Rule F)
  pub th : Thresholds F

abbrev pub listed : List Text → Text → Bool
listed names n = any (text_eq n) names

-- `delete(want, n)`.
abbrev pub remove : Text → List Text → List Text
remove n names = filter (λ m. not (text_eq n m)) names

-- The loop that looks for a name that no rule has.
unfoldable pub first_listed : List Text → List Text → Option Text
first_listed left [] = none
first_listed left (n ∷ names) = if listed left n then some n else first_listed left names

module _ {F : Type 0} where
  -- The loop over the registry: the rules chosen, and what is left of `want`.
  unfoldable pub choose : List (Rule F) → List Text → List (Rule F) × List Text
  choose [] want = ([], want)
  choose (r ∷ rules) want =
      let (taken, left) = choose rules (if listed want r.name then remove r.name want else want) in
      (if listed want r.name then r ∷ taken else taken, left)

  abbrev pub engine_or : Thresholds F → List (Rule F) → Option Text → Result Text (Engine F)
  engine_or th rules none = ok (record { rules = rules; th = th })
  engine_or th rules (some unknown) = err unknown

  -- `New`, on the registry as it stands; the error is the unknown name.
  unfoldable pub new_engine : List (Rule F) → Thresholds F → List Text → Result Text (Engine F)
  new_engine registry th [] = ok (record { rules = registry; th = th })
  new_engine registry th (n ∷ names) =
      let (rules, left) = choose registry (n ∷ names) in
      engine_or th rules (first_listed left (n ∷ names))

  abbrev pub rule_needs : Facts F → Thresholds F → Option (Facts F → Thresholds F → Bool) → Bool
  rule_needs f th none = false
  rule_needs f th (some wants) = wants f th

  unfoldable pub needs_trace : Engine F → Facts F → Bool
  needs_trace e f = any (λ r. rule_needs f e.th r.wants_trace) e.rules

  unfoldable pub check_all : List (Rule F) → Facts F → Thresholds F → List Advice
  check_all [] f th = []
  check_all (r ∷ rules) f th = r.check f th ++ check_all rules f th

  unfoldable pub analyze : Engine F → Facts F → List Advice
  unfolding check_all
  analyze e f = check_all e.rules f e.th

module _ {F : Type 0} ⦃fl : Float F⦄ where
  unfoldable pub over_ratio : Option (JobUsage F) → Thresholds F → Bool
  over_ratio none t = false
  over_ratio (some u) t =
      fl.lt (fl.of_uint 0) t.throttle_warn_ratio && fl.le t.throttle_warn_ratio u.throttled_ratio

  unfoldable pub throttled : Facts F → Thresholds F → Bool
  unfolding over_ratio
  throttled f t = over_ratio f.usage t

module _ (F : Type 0) ⦃fl : Float F⦄ where
  -- `int64(cores*1000 + 0.5)`, and its print with the unit.
  abbrev pub to_millis : F → ℤ
  to_millis c = fl.to_int (fl.add (fl.mul c (fl.of_uint 1000)) fl.half)

  unfoldable pub millicores : F → Text
  millicores c = format_int (to_millis c) ++ codes "m"
