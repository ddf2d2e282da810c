-- ===== src/Gitlab/Calls.antt =====
-- internal/gitlab/gitlab.go: the operations that wrap one call of the API each. What the API answers
-- is an argument; `MergeRequestForBranch` asks it for the open merge requests of the branch.
use cigar.Prelude.{ℕ, Option, none, some, List, [], ◌∷◌}
use cigar.Prelude.Int.{ℤ}
use cigar.Prelude.Result.{Result, ok, err}
use cigar.Text.{Text}
use cigar.Gitlab.{Discussion}

-- The number of the first one listed.
unfoldable pub merge_request_for_branch : {E : Type 0} → Result E (List ℤ) → Result E (Option ℤ)
merge_request_for_branch (err e) = err e
merge_request_for_branch (ok []) = ok none
merge_request_for_branch (ok (iid ∷ mrs)) = ok (some iid)

pub data DiscussionError (E : Type 0) : Type 0 where
  get_failed : E → DiscussionError E
  no_notes : DiscussionError E

-- The notes of a discussion, each with its author and body.
unfoldable pub merge_request_discussion :
    {E : Type 0} → Result E (List (ℤ × Text)) → Result (DiscussionError E) Discussion
merge_request_discussion (err e) = err (get_failed e)
merge_request_discussion (ok []) = err no_notes
merge_request_discussion (ok ((author, body) ∷ notes)) =
    ok (record { root_note_author_id = author; root_note_body = body })

-- `JobTrace`: the call for the file, and the reading of it.
unfoldable pub job_trace : {E R : Type 0} → Result E R → (R → Result E Text) → Result E Text
job_trace (err e) read = err e
job_trace (ok r) read = read r

-- The errors of the calls that answer with one value, with what the source says of each.
pub data CallError (E : Type 0) : Type 0 where
  create_failed user_failed : E → CallError E
  upload_failed : (filename : Text) → (project_id : ℤ) → E → CallError E
  reply_failed : (discussion_id : Text) → (mr_iid : ℤ) → E → CallError E

-- `New`, with the library's constructor of a client.
unfoldable pub new_client :
    {E C : Type 0}
    → ((token base_url : Text) → Result E C)
    → (base_url token : Text) → Result (CallError E) C
new_client make base_url token = elim (make token base_url) [
  | ok c ↦ ok c
  | err e ↦ err (create_failed e)
]

-- The user's number.
unfoldable pub current_user : {E : Type 0} → Result E ℤ → Result (CallError E) ℤ
current_user (err e) = err (user_failed e)
current_user (ok id) = ok id

-- The Markdown of the upload.
unfoldable pub upload_file :
    {E : Type 0}
    → ((project_id : ℤ) → (content : List ℕ) → (filename : Text) → Result E Text)
    → (project_id : ℤ) → (filename : Text) → (content : List ℕ) → Result (CallError E) Text
upload_file upload project_id filename content = elim (upload project_id content filename) [
  | ok markdown ↦ ok markdown
  | err e ↦ err (upload_failed filename project_id e)
]

unfoldable pub create_discussion_reply :
    {E : Type 0}
    → ((project_id mr_iid : ℤ) → (discussion_id body : Text) → Option E)
    → (project_id mr_iid : ℤ) → (discussion_id body : Text) → Option (CallError E)
create_discussion_reply add project_id mr_iid discussion_id body =
    elim (add project_id mr_iid discussion_id body) [
      | none ↦ none
      | some e ↦ some (reply_failed discussion_id mr_iid e)
    ]
