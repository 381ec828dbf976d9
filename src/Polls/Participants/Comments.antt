-- ===== src/Polls/Participants/Comments.antt =====
-- AddComment and DeleteComment of internal/polls/participants.go.
use whenweall.Prelude.{
  ℕ, ◌||◌, ◌&&◌, Option, none, some, [], ◌∷◌, ◌++◌, ◌==◌, if◌then◌else◌, select_one, update_where,
}
use whenweall.Prelude.Text.{Text}
use whenweall.Prelude.Outcome.{ok, ◌>>=◌, ◌>>◌, require, found}
use whenweall.Polls.Store.{
  Result, err_forbidden, err_not_found, Poll, Participant, Comment, Db, comment_changed, get_poll,
  get_participant, emit, is_null,
}
use whenweall.Polls.Claims.{Viewer, can_manage_poll, is_user}
use whenweall.Polls.Participants.{user_of}

pub record CommentInput : Type 0 where
  pub author_name : Text
  pub body : Text

-- The participant that the guest token names, if it is of this poll.
abbrev linked : ℕ → Option Participant → Option ℕ
linked poll_id none = none
linked poll_id (some p) = if p.poll_id == poll_id then some p.id else none

unfoldable pub participant_link : ℕ → Option ℕ → Db → Option ℕ
participant_link poll_id none db = none
participant_link poll_id (some id) db = linked poll_id (get_participant id db)

abbrev pub new_comment : ℕ → ℕ → CommentInput → Option ℕ → Option ℕ → ℕ → Comment
new_comment id poll_id input participant_id user_id now = record {
  id = id;
  poll_id = poll_id;
  author_name = input.author_name;
  participant_id = participant_id;
  user_id = user_id;
  body = input.body;
  created_at = now;
  deleted_at = none;
}

unfoldable pub add_comment : ℕ → ℕ → CommentInput → Viewer → ℕ → Db → Result Db
unfolding participant_link
add_comment new_id poll_id input viewer now db =
    found (get_poll poll_id db) err_not_found >>= λ (p : Poll).
    require p.allow_comments err_forbidden
    >> (user_of viewer.user_id >>= λ (user_id : Option ℕ). ok (
        emit (comment_changed poll_id) (record db {
          comments =
              db.comments
              ++ new_comment new_id poll_id input
                  (participant_link poll_id viewer.guest_participant_id db) user_id now
                ∷ [];
        })))

-- GetComment finds live comments only.
unfoldable pub get_comment : ℕ → Db → Option Comment
get_comment id db = select_one (λ (c : Comment). c.id == id && is_null c.deleted_at) db.comments

unfoldable pub delete_comment : ℕ → ℕ → Viewer → ℕ → Db → Result Db
unfolding get_comment
delete_comment poll_id comment_id viewer now db =
    found (get_comment comment_id db) err_not_found >>= λ (c : Comment).
    require (c.poll_id == poll_id) err_not_found
    >> (found (get_poll poll_id db) err_not_found >>= λ (p : Poll).
        require
          (can_manage_poll p.organization_id p.created_by viewer.user_id db
            || is_user viewer.user_id c.user_id)
          err_forbidden
        >> ok (
            emit (comment_changed poll_id) (record db {
              comments =
                  update_where (λ (x : Comment). x.id == comment_id && x.poll_id == poll_id)
                    (λ (x : Comment). record x { deleted_at = some now }) db.comments;
            })))
