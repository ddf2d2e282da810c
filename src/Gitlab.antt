-- ===== src/Gitlab.antt =====
-- internal/gitlab: the part of the GitLab API that the bot uses. The HTTP client and the server are
-- parameters.
pub mod Calls
pub mod Client
pub mod Find
pub mod Jobs
pub mod Paging
pub mod Upsert
pub mod Service
mod Tests
use cigar.Prelude.{Bool, Option, List}
use cigar.Prelude.Int.{ℤ}
use cigar.Text.{Text}
use cigar.Time.{Time}

pub record Job : Type 0 where
  pub id : ℤ
  pub stage : Text
  pub name : Text
  pub started_at : Time
  pub finished_at : Time

-- `discussion.go`.
pub record Discussion : Type 0 where
  pub root_note_author_id : ℤ
  pub root_note_body : Text
