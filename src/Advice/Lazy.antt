-- ===== src/Advice/Lazy.antt =====
-- advice.go: a rule that does not ask for the trace does not look at it.
use cigar.Prelude.{◌≡◌, refl, Bool, false, ◌||◌, List, [], ◌∷◌, arith, any, All}
use cigar.Text.{Text}
use cigar.Float.{Float}
use cigar.Advice.{
  Facts, Thresholds, Rule, Engine, rule_needs, needs_trace, check_all, analyze, throttled,
}
use cigar.Advice.Cpu.{check_cpu}
use cigar.Advice.Java.{check_java, java_threads}
use cigar.Advice.LongJob.{check_long, long_body}
use cigar.Advice.Memory.{check_memory}
use cigar.Advice.Registry.{built_in}

or-false : (a b : Bool) → (a || b) ≡ false → (a ≡ false) × (b ≡ false)
or-false a b e = ground (arith, e)

module _ {F : Type 0} where
  -- The facts with another trace.
  abbrev pub traced : Facts F → Text → Facts F
  traced f t = record {
    stage = f.stage;
    name = f.name;
    duration = f.duration;
    usage = f.usage;
    trace = t;
  }

  abbrev pub Honest : Thresholds F → Rule F → Type 0
  Honest th r =
      (f : Facts F) (t : Text)
      → rule_needs f th r.wants_trace ≡ false
      → r.check (traced f t) th ≡ r.check f th

  check_all-Lazy :
      (th : Thresholds F) (rules : List (Rule F)) (f : Facts F) (t : Text)
      → All (Honest th) rules
      → any (λ r. rule_needs f th r.wants_trace) rules ≡ false
      → check_all rules (traced f t) th ≡ check_all rules f th
  unfolding check_all
  check_all-Lazy th [] f t h e = refl
  check_all-Lazy th (r ∷ rules) f t (hr, h) e =
      let (e1, e2) = or-false (rule_needs f th r.wants_trace) _ e in
      rw (hr f t e1, check_all-Lazy th rules f t h e2) refl

  pub analyze-Lazy :
      (e : Engine F) (f : Facts F) (t : Text)
      → All (Honest e.th) e.rules
      → needs_trace e f ≡ false
      → analyze e (traced f t) ≡ analyze e f
  unfolding analyze needs_trace
  analyze-Lazy e f t h n = check_all-Lazy e.th e.rules f t h n

module _ (F : Type 0) ⦃fl : Float F⦄ where
  check_java-Honest : (th : Thresholds F) → Honest th (java_threads F)
  unfolding check_java throttled
  check_java-Honest th f t e = ground (arith, e)

  -- Each rule of the registry that the program starts with.
  pub built_in-Honest : (th : Thresholds F) → All (Honest th) (built_in F)
  unfolding check_cpu check_long check_memory throttled long_body
  built_in-Honest th =
      ((λ f t e. refl), (check_java-Honest th, ((λ f t e. refl), ((λ f t e. refl), tt))))
