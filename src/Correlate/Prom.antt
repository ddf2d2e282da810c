-- ===== src/Correlate/Prom.antt =====
-- internal/correlate/prom.go: the pod that Prometheus names. The answer to a query is a parameter.
use cigar.Prelude.{Option, none, some, List, [], ◌∷◌, ◌++◌, if◌then◌else◌}
use cigar.Prelude.Int.{ℤ, ◌+ℤ◌, wrap64, quot}
use cigar.Prelude.Result.{Result, ok, err}
use cigar.Text.{Text, codes, is_empty}
use cigar.Text.Decimal.{format_int}
use cigar.Time.{Time, Duration, sub}

-- The answer: a vector, of which the label "pod" of each sample is read, or another type of value.
pub data Answer : Type 0 where
  vector : List Text → Answer
  other : Text → Answer

pub data QueryError (E : Type 0) : Type 0 where
  query_failed : Text → E → QueryError E
  unexpected_type : Text → Text → QueryError E

unfoldable pub pod_query : Duration → ℤ → Time → Time → Text
pod_query scrape job_id start end =
    codes "max_over_time(kube_pod_labels{label_job_id=\""
    ++ format_int job_id
    ++ codes "\"}["
    ++ format_int (quot (wrap64 (sub end start +ℤ scrape)) 1_000_000)
    ++ codes "ms])"

unfoldable pub pod_of_answer :
    {E : Type 0} → Text → Result E Answer → Result (QueryError E) (Option Text)
pod_of_answer query (err e) = err (query_failed query e)
pod_of_answer query (ok (other type)) = err (unexpected_type query type)
pod_of_answer query (ok (vector [])) = ok none
pod_of_answer query (ok (vector (pod ∷ pods))) = if is_empty pod then ok none else ok (some pod)

-- `PodForJob`, with the API's answer at the end of the job's window.
unfoldable pub prom_pod :
    {E : Type 0}
    → (Text → Time → Result E Answer)
    → Duration
    → ℤ
    → Time
    → Time
    → Result (QueryError E) (Option Text)
unfolding pod_query pod_of_answer
prom_pod ask scrape job_id start end =
    let query = pod_query scrape job_id start end in pod_of_answer query (ask query end)
