-- ===== src/Gitlab/Client.antt =====
-- internal/gitlab/client.go: the interface `Client`, as the answers that a server gives. What a
-- caller asks it to write, the caller's model records.
use cigar.Prelude.{ℕ, Option, List}
use cigar.Prelude.Int.{ℤ}
use cigar.Prelude.Result.{Result}
use cigar.Text.{Text}
use cigar.Gitlab.{Job, Discussion}

-- The number of a merge request is `none` where the branch has none open; a write returns its error.
pub record Client (E : Type 0) : Type 0 where
  pub pipeline_jobs : (project_id pipeline_id : ℤ) → Result E (List Job)
  pub merge_request_for_branch : (project_id : ℤ) → (branch : Text) → Result E (Option ℤ)
  pub upsert_note : (project_id mr_iid : ℤ) → (marker body : Text) → Option E
  pub job_trace : (project_id job_id : ℤ) → Result E Text
  pub current_user : Result E ℤ
  pub merge_request_discussion :
      (project_id mr_iid : ℤ) → (discussion_id : Text) → Result E Discussion
  pub upload_file : (project_id : ℤ) → (filename : Text) → (content : List ℕ) → Result E Text
  pub create_discussion_reply : (project_id mr_iid : ℤ) → (discussion_id body : Text) → Option E
