-- ===== src/Correlate/Named.antt =====
-- trace.go: the pod is the one that a line of the trace names.
use cigar.Prelude.{
  ℕ, subst, zero, ◌≡◌, ◌≢◌, ◌^◌, ap, ◌∙◌, Bool, true, Option, none, some, List, [], ◌∷◌, ◌++◌, ◌⊎◌,
  leb, if◌then◌else◌, All, arith, Option-cases, Bool-cases, inl, inr, bind-eq-some,
}
use cigar.Prelude.Result.{Result, ok}
use cigar.Text.{Text, codes, some_span, span, strip_prefix, split_lines, is_empty}
use cigar.Text.Search.{some_span_sound, strip_prefix_sound}
use cigar.Correlate.Trace.{
  match_runner, find_runner, not_space, strip_colors, drop_cr, TraceError, byte_length, scan_lines,
  trace_pod,
}

-- The text says that it runs on the pod.
abbrev pub Names : Text → Text → Type 0
Names s pod =
    (before : Text) × (after : Text) × (s
      ≡ before ++ (codes "Running on " ++ (pod ++ (codes " via " ++ after))))
    × (pod ≢ [])
    × All (λ c. not_space c ≡ true) pod

kept-ne_nil :
    (r : Text × Text) (rest : Text) → (if is_empty r.0 then none else some r) ≢ some ([], rest)
kept-ne_nil ([], b) rest h = cc
kept-ne_nil (c ∷ w, b) rest h = cc

some_span-ne_nil :
    (p : ℕ → Bool) (s word rest : Text) → some_span p s ≡ some (word, rest) → word ≢ []
some_span-ne_nil p s [] rest h = absurd (kept-ne_nil (span p s) rest h)
some_span-ne_nil p s (c ∷ word) rest h = λ e. cc

match_runner_sound : (s pod : Text) → match_runner s ≡ some pod → Names s pod
unfolding match_runner
match_runner_sound s pod h =
    let (a, e1, h1) = bind-eq-some (strip_prefix (codes "Running on ") s) _ h in
    let ((word, b), e2, h2) = bind-eq-some (some_span not_space a) _ h1 in
    let (after, e3, h3) = bind-eq-some (strip_prefix (codes " via ") b) _ h2 in
    let (split, clean) = some_span_sound not_space a word b e2 in
    let whole : s ≡ codes "Running on " ++ (word ++ (codes " via " ++ after)) =
      strip_prefix_sound (codes "Running on ") s a e1
      ∙ ap (λ t. codes "Running on " ++ t)
          (split ∙ ap (λ t. word ++ t) (strip_prefix_sound (codes " via ") b after e3)) in
    let same : word ≡ pod = ground (arith, h3) in
    subst (Names s) same ([], after, whole, some_span-ne_nil not_space a word b e2, clean)

find_runner_sound : (s pod : Text) → find_runner s ≡ some pod → Names s pod
unfolding find_runner
find_runner_sound [] pod h = cc
find_runner_sound (c ∷ s) pod h = elim (Option-cases (match_runner (c ∷ s))) [
  | inl e ↦
      let (before, after, split, ne, clean) = find_runner_sound s pod (rw (e, find_runner) at h) in
      (c ∷ before, after, ap (λ l. c ∷ l) split, ne, clean)
  | inr (found, e) ↦ match_runner_sound (c ∷ s) pod (e ∙ (rw (e, find_runner) at h))
]

-- A line of the trace, without its colours, names the pod.
abbrev pub SomeLine : Text → List Text → Type 0
SomeLine pod [] = ⊥
SomeLine pod (l ∷ lines) = Names (strip_colors zero (drop_cr l)) pod ⊎ SomeLine pod lines

same :
    {E : Type 0} {o : Option Text} {found pod : Text}
    → o ≡ some found
    → ◌≡◌ {A = Result (TraceError E) (Option Text)} (ok (some found)) (ok (some pod))
    → o ≡ some pod
same f h = ground (arith, f, h)

scan_lines_sound :
    {E : Type 0} (lines : List Text) (pod : Text)
    → scan_lines {E = E} lines ≡ ok (some pod)
    → SomeLine pod lines
unfolding scan_lines
scan_lines_sound [] pod h = cc
scan_lines_sound (l ∷ lines) pod h = elim (Bool-cases (leb (2 ^ 20) (byte_length l))) [
  | inl e ↦ cc (rw (e) at h)
  | inr e ↦ elim (Option-cases (find_runner (strip_colors zero (drop_cr l)))) [
    | inl f ↦ inr (scan_lines_sound lines pod (rw (e, f) at h))
    | inr (found, f) ↦ inl (find_runner_sound _ pod (same f (rw (e, f) at h)))
  ]
]

-- A pod that the trace resolver returns is not empty, has no white space, and is named by a line of
-- the trace.
pub trace_pod_sound :
    {E : Type 0} (trace pod : Text)
    → trace_pod {E = E} (ok trace) ≡ ok (some pod)
    → SomeLine pod (split_lines trace)
unfolding trace_pod
trace_pod_sound trace pod h = scan_lines_sound (split_lines trace) pod h
