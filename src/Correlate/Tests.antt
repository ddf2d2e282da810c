-- ===== src/Correlate/Tests.antt =====
-- A coloured trace.
use cigar.Prelude.{◌≡◌, refl, some, ◌∷◌, ◌++◌}
use cigar.Prelude.Result.{ok}
use cigar.Text.{Text, codes, split_lines, strip_prefix, span, re_space}
use cigar.Correlate.Named.{SomeLine, trace_pod_sound}
use cigar.Correlate.Trace.{trace_pod, find_runner, match_runner, strip_colors}

abbrev a_trace : Text
a_trace = codes "hello\n" ++ 0x1b ∷ codes "[0;1mRunning on runner-1 via host\r\nbye\n"

named : trace_pod {E = Text} (ok a_trace) ≡ ok (some (codes "runner-1"))
unfolding trace_pod split_lines find_runner strip_colors match_runner strip_prefix span re_space
named = refl

trace_pod_sound_example : SomeLine (codes "runner-1") (split_lines a_trace)
trace_pod_sound_example = trace_pod_sound a_trace (codes "runner-1") named
