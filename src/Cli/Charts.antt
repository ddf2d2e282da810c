-- ===== src/Cli/Charts.antt =====
-- run.go: the charts that `printJobDetails` prints behind the report.
use cigar.Prelude.{
  ℕ, ◌≡◌, ◌≢◌, refl, inl, inr, true, false, Option, none, some, List, [], ◌∷◌, length, Bool-cases,
  ◌&&◌, ◌==◌, arith,
}
use cigar.Prelude.Result.{Result, ok, err}
use cigar.Text.{Text, codes}
use cigar.Float.{Float}
use cigar.Metrics.{Line, PodSeries, SeriesSource, empty}
use cigar.Chart.{
  ValueUnit, unit_cores, unit_bytes, unit_bytes_per_sec, markdown, Renderers, render_chart,
}
use cigar.Gitlab.{Job}
use cigar.Reporter.{Reporter}
use cigar.Cli.Run.{
  CliError, series_failed, render_failed, Output, RunChart, run_charts, line_to_series,
  chart_result, print_charts, series_result, pod_charts,
}

-- None of the three lines has a point.
pub record Pointless {F : Type 0} (s : PodSeries F) : Type 0 where
  pub cpu : s.cpu.points ≡ []
  pub memory : s.memory.points ≡ []
  pub net_tx : s.net_tx.points ≡ []

points-cases :
    {F : Type 0} (c m n : List F)
    → ((length c == 0) && (length m == 0) && (length n == 0) ≡ true)
    → (c ≡ []) × (m ≡ []) × (n ≡ [])
points-cases [] [] [] h = (refl, refl, refl)
points-cases (p ∷ c) m n h = ground arith
points-cases [] (p ∷ m) n h = ground arith
points-cases [] [] (p ∷ n) h = ground arith

empty-Pointless : {F : Type 0} (s : PodSeries F) → empty s ≡ true → Pointless s
unfolding empty
empty-Pointless s h =
    let (c, m, n) = points-cases s.cpu.points s.memory.points s.net_tx.points h in
    record { cpu = c; memory = m; net_tx = n }

empty-points : {F : Type 0} (s : PodSeries F) → empty s ≡ false → ¬ Pointless s
unfolding empty
empty-points s h none_there =
    let all : empty s ≡ true = rw (none_there.cpu, none_there.memory, none_there.net_tx) refl in cc

module _ {E F : Type 0} ⦃fl : Float F⦄ (r : Renderers E F) where
  -- Charts with the titles, units and lines of a list, in its order, each as the markdown renderer
  -- has it, with a line end behind it. The first that cannot be rendered is the end, with its error.
  pub data Drawn : List (Text × ValueUnit × Line F) → List Text → Option (CliError E) → Type 0 where
    all_drawn : Drawn [] [] none
    one_drawn :
        {title : Text} {unit : ValueUnit} {line : Line F} {md : Text}
        {cs : List (Text × ValueUnit × Line F)} {texts : List Text} {error : Option (CliError E)}
        → render_chart r markdown title unit (line_to_series line ∷ []) ≡ ok md
        → Drawn cs texts error
        → Drawn ((title, unit, line) ∷ cs) (md ∷ codes "\n" ∷ texts) error
    not_drawn :
        {title : Text} {unit : ValueUnit} {line : Line F} {e : E}
        {cs : List (Text × ValueUnit × Line F)}
        → render_chart r markdown title unit (line_to_series line ∷ []) ≡ err e
        → Drawn ((title, unit, line) ∷ cs) [] (some (render_failed title e))

  module _ (rep : Reporter E F) (series : Option (SeriesSource E F)) (warn : F) where
    chart_result-Drawn :
        (title : Text) (unit : ValueUnit) (line : Line F) (cs : List (Text × ValueUnit × Line F))
        (md : Result E (List ℕ)) (rest : Output E)
        → render_chart r markdown title unit (line_to_series line ∷ []) ≡ md
        → Drawn cs rest.printed rest.error
        → let c : RunChart F = record {
          title = title;
          unit = unit;
          lines = line_to_series line ∷ [];
        } in
          let o = chart_result r rep series warn c md rest in
          Drawn ((title, unit, line) ∷ cs) o.printed o.error
    chart_result-Drawn title unit line cs (ok md) rest made others = one_drawn made others
    chart_result-Drawn title unit line cs (err e) rest made others = not_drawn made

    -- The three lines of a pod, by their titles and units.
    abbrev pub three_charts : PodSeries F → List (Text × ValueUnit × Line F)
    three_charts s =
        (codes "CPU (cores)", unit_cores, s.cpu)
        ∷ (codes "Memory (bytes)", unit_bytes, s.memory)
        ∷ (codes "Network TX (bytes/s)", unit_bytes_per_sec, s.net_tx)
        ∷ []

    print_charts-Drawn :
        (s : PodSeries F)
        → Drawn
            (three_charts s)
            (print_charts r rep series warn (run_charts s)).printed
            (print_charts r rep series warn (run_charts s)).error
    unfolding print_charts
    print_charts-Drawn s =
        chart_result-Drawn _ _ _ _ _ _ refl
          (chart_result-Drawn _ _ _ _ _ _ refl (chart_result-Drawn _ _ _ _ _ _ refl all_drawn))

    -- The charts behind the report of a job: none where its pod is unknown, the source of metrics has
    -- no series, or the pod's series have no points; else the three.
    pub data Charted (j : Job) : Option Text → List Text → Option (CliError E) → Type 0 where
      no_pod : Charted j none [] none
      no_name : Charted j (some []) [] none
      no_source : {pod : Option Text} → series ≡ none → Charted j pod [] none
      no_answer :
          {pod : Text} {ss : SeriesSource E F} {e : E}
          → series ≡ some ss
          → pod ≢ []
          → ss.pod_series pod j.started_at j.finished_at ≡ err e
          → Charted j (some pod) [] (some (series_failed e))
      no_points :
          {pod : Text} {ss : SeriesSource E F} {s : PodSeries F}
          → series ≡ some ss
          → ss.pod_series pod j.started_at j.finished_at ≡ ok s
          → Pointless s
          → Charted j (some pod) [] none
      charted :
          {pod : Text} {ss : SeriesSource E F} {s : PodSeries F} {texts : List Text}
          {error : Option (CliError E)}
          → series ≡ some ss
          → pod ≢ []
          → ss.pod_series pod j.started_at j.finished_at ≡ ok s
          → ¬ Pointless s
          → Drawn (three_charts s) texts error
          → Charted j (some pod) texts error

    series_result-Charted :
        (j : Job) (pod : Text) (ss : SeriesSource E F) (answer : Result E (PodSeries F))
        → series ≡ some ss
        → pod ≢ []
        → ss.pod_series pod j.started_at j.finished_at ≡ answer
        → Charted j
            (some pod)
            (series_result r rep series warn answer).printed
            (series_result r rep series warn answer).error
    series_result-Charted j pod ss (err e) source named asked = no_answer source named asked
    series_result-Charted j pod ss (ok s) source named asked = elim (Bool-cases (empty s)) [
      | inl nothing ↦ rw nothing (no_points source asked (empty-Pointless s nothing))
      | inr something ↦
          rw something
            (charted source named asked (empty-points s something) (print_charts-Drawn s))
    ]

    pub pod_charts-Charted :
        (j : Job) (pod : Option Text) (source : Option (SeriesSource E F))
        → series ≡ source
        → Charted j pod
            (pod_charts r rep series warn j pod source).printed
            (pod_charts r rep series warn j pod source).error
    pod_charts-Charted j none source same = no_pod
    pod_charts-Charted j (some pod) none same = no_source same
    pod_charts-Charted j (some []) (some ss) same = no_name
    pod_charts-Charted j (some (c ∷ pod)) (some ss) same =
        series_result-Charted j (c ∷ pod) ss _ same (λ e. cc) refl
