-- ===== src/Gitlab/Service.antt =====
-- internal/gitlab/gitlab.go: `apiClient`, the operations put together as the interface `Client`, over
-- what the server answers to each call.
use cigar.Prelude.{ℕ, ◌≡◌, ◌<◌, refl, Option, none, some, List, map}
use cigar.Prelude.Int.{ℤ}
use cigar.Prelude.Result.{Result, ok, err}
use cigar.Text.{Text}
use cigar.Gitlab.Client.{Client}
use cigar.Gitlab.Paging.{Page, Pages}
use cigar.Gitlab.Jobs.{ApiJob, ListError, job_of, pipeline_jobs, pipeline_jobs-Pages}
use cigar.Gitlab.Upsert.{Api, UpsertError, upsert_note}
use cigar.Gitlab.Calls.{
  DiscussionError, CallError, merge_request_for_branch, merge_request_discussion, job_trace,
  current_user, upload_file, create_discussion_reply,
}

-- The answers of GitLab; a trace is a file that is read.
pub record Server (E : Type 0) : Type 0 where
  pub jobs : (project_id pipeline_id : ℤ) → ℕ → Result E (Page ApiJob)
  pub open_requests : (project_id : ℤ) → (branch : Text) → Result E (List ℤ)
  pub notes : (project_id mr_iid : ℤ) → Api E
  pub trace_file : (project_id job_id : ℤ) → Result E (Result E Text)
  pub user : Result E ℤ
  pub discussion : (project_id mr_iid : ℤ) → (discussion_id : Text) → Result E (List (ℤ × Text))
  pub upload : (project_id : ℤ) → (content : List ℕ) → (filename : Text) → Result E Text
  pub reply : (project_id mr_iid : ℤ) → (discussion_id body : Text) → Option E

-- The errors of the client, by the operation.
pub data ClientError (E : Type 0) : Type 0 where
  jobs_failed : ListError E → ClientError E
  upsert_failed : UpsertError E → ClientError E
  discussion_failed : DiscussionError E → ClientError E
  call_failed : CallError E → ClientError E
  request_failed trace_failed : E → ClientError E

abbrev pub failing : {X Y A : Type 0} → (X → Y) → Result X A → Result Y A
failing wrap (ok a) = ok a
failing wrap (err x) = err (wrap x)

abbrev pub failed : {X Y : Type 0} → (X → Y) → Option X → Option Y
failed wrap none = none
failed wrap (some x) = some (wrap x)

module _ {E : Type 0} (fuel : ℕ) (server : Server E) where
  unfoldable pub api_client : Client (ClientError E)
  unfolding merge_request_for_branch merge_request_discussion job_trace current_user upload_file
      create_discussion_reply
  api_client = record {
    pipeline_jobs = λ project_id pipeline_id.
        failing jobs_failed (pipeline_jobs (server.jobs project_id pipeline_id) fuel);
    merge_request_for_branch = λ project_id branch.
        failing request_failed (merge_request_for_branch (server.open_requests project_id branch));
    upsert_note = λ project_id mr_iid marker body.
        failed upsert_failed (upsert_note (server.notes project_id mr_iid) fuel marker body).1;
    job_trace = λ project_id job_id.
        failing trace_failed (job_trace (server.trace_file project_id job_id) (λ file. file));
    current_user = failing call_failed (current_user server.user);
    merge_request_discussion = λ project_id mr_iid discussion_id.
        failing discussion_failed
          (merge_request_discussion (server.discussion project_id mr_iid discussion_id));
    upload_file = λ project_id filename content.
        failing call_failed (upload_file server.upload project_id filename content);
    create_discussion_reply = λ project_id mr_iid discussion_id body.
        failed call_failed
          (create_discussion_reply server.reply project_id mr_iid discussion_id body);
  }

  -- The client lists every job of the pages that the server holds, with fuel for them all.
  api_client-jobs :
      (project_id pipeline_id : ℤ) (n : ℕ) (items : List ApiJob)
      → n < fuel
      → Pages (server.jobs project_id pipeline_id) 0 n items
      → api_client.pipeline_jobs project_id pipeline_id ≡ ok (map job_of items)
  unfolding api_client
  api_client-jobs project_id pipeline_id n items h p =
      rw (pipeline_jobs-Pages (server.jobs project_id pipeline_id) fuel n items h p) refl
