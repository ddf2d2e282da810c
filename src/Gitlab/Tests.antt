-- ===== src/Gitlab/Tests.antt =====
-- Two pages of jobs, and the discussions of a merge request with one report note.
use cigar.Prelude.{
  ℕ, zero, suc, ◌≡◌, refl, false, none, some, List, [], ◌∷◌, ◌++◌, arith, map, length,
}
use cigar.Prelude.Int.{pos}
use cigar.Prelude.Result.{Result, ok}
use cigar.Text.{Text, codes, contains, starts_with}
use cigar.Report.Marker.{marker, marker_prefix}
use cigar.Gitlab.Jobs.{ApiJob, job_of, pipeline_jobs, pipeline_jobs-Pages}
use cigar.Gitlab.Paging.{Page, last, more}
use cigar.Gitlab.Upsert.{
  Note, Thread, Write, update_note, create_note, Api, first_reusable, upsert_note,
}
use cigar.Gitlab.Upsert.Scan.{First, Upserts, upsert_note-Pages}
use cigar.Gitlab.Upsert.Edits.{edit_threads}
use cigar.Gitlab.Upsert.Idempotent.{Server, settle, Wrote, upsert_note_twice}

abbrev api_build : ApiJob
api_build = record {
  id = pos 11;
  stage = codes "build";
  name = codes "compile";
  started_at = some 5;
  finished_at = some 9;
}

abbrev api_ship : ApiJob
api_ship = record {
  id = pos 12;
  stage = codes "deploy";
  name = codes "ship";
  started_at = none;
  finished_at = none;
}

abbrev job_page : ℕ → Result Text (Page ApiJob)
job_page zero = ok (record { items = api_build ∷ []; next_page = 2 })
job_page (suc p) = ok (record { items = api_ship ∷ []; next_page = 0 })

pipeline_jobs-Pages_example : pipeline_jobs job_page 2 ≡ ok (map job_of (api_build ∷ api_ship ∷ []))
pipeline_jobs-Pages_example =
    pipeline_jobs-Pages job_page 2 1 (api_build ∷ api_ship ∷ []) (omega arith)
      (more (api_build ∷ []) 2 refl (omega arith) (last (api_ship ∷ []) refl refl) refl)

abbrev question : Note
question = record { id = pos 1; system = false; body = codes "Why?" }

abbrev old_report : Note
old_report = record { id = pos 2; system = false; body = marker }

abbrev threads : List Thread
threads = (question ∷ []) ∷ (old_report ∷ []) ∷ []

abbrev listed_threads : List Thread → ℕ → Result Text (Page Thread)
listed_threads ds p = ok (record { items = ds; next_page = 0 })

abbrev api_of : List Thread → Api Text
api_of ds = record { discussions = listed_threads ds; write = λ w. none }

upsert_note-Pages_example :
    Upserts
      (api_of threads)
      marker_prefix
      marker
      threads
      (upsert_note (api_of threads) 1 marker_prefix marker)
upsert_note-Pages_example =
    upsert_note-Pages (api_of threads) marker_prefix marker 1 0 threads (omega arith)
      (last threads refl refl)

found : first_reusable marker_prefix threads ≡ some old_report
unfolding first_reusable contains starts_with
found = refl

abbrev applied : Write → List Thread → List Thread
applied (update_note id body) ds = edit_threads id body ds
applied (create_note body) ds =
    ds ++ ((record { id = pos 9; system = false; body = body } ∷ []) ∷ [])

abbrev a_server : Server
a_server = record {
  after = applied;
  new_id = λ ds. pos 9;
  after_update = λ id body ds. refl;
  after_create = λ body ds. refl;
}

first_taken : (upsert_note (api_of threads) 1 marker_prefix marker).1 ≡ none
unfolding upsert_note first_reusable contains starts_with
first_taken = refl

upsert_note_twice_example :
    let ds' = settle a_server (upsert_note (api_of threads) 1 marker_prefix marker).0 threads in
    (root : Note) × First marker_prefix root ds'
    × Wrote a_server root.id marker threads (upsert_note (api_of threads) 1 marker_prefix marker).0
    × ((upsert_note (api_of ds') 1 marker_prefix (codes "new")).0
        ≡ update_note root.id (codes "new") ∷ [])
    × (length (settle a_server (upsert_note (api_of ds') 1 marker_prefix (codes "new")).0 ds')
        ≡ length ds')
unfolding contains starts_with
upsert_note_twice_example =
    let ds' = settle a_server (upsert_note (api_of threads) 1 marker_prefix marker).0 threads in
    upsert_note_twice a_server (api_of threads) (api_of ds') marker_prefix marker (codes "new") 1 1
      0 0 threads refl first_taken (omega arith) (last threads refl refl) (omega arith)
      (last ds' refl refl)
