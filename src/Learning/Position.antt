-- ===== src/Learning/Position.antt =====
-- Where a user stands in a lesson (src/learning/learning.service.ts: markContent).
use smartpig_backend.Common.{
  ℕ, Bool, false, ◌&&◌, ◌||◌, not, Option, none, some, ◌∷◌, String, ◌==◌, find?, any?, update_where,
  same_string, http, ErrorKind, Exception, Action, gets, modify, or_throw, throw_if, ◌>>=◌, ◌>>◌,
}
use smartpig_backend.Learning.{is_progress_of, find_progress}
use smartpig_backend.Learning.Catalog.{Lesson, LessonProgress, LearnDb}

abbrev pub content_not_found : Exception
content_not_found = http ErrorKind.not_found "Learning content not found"

-- `markContent`: the item is a content or a question of the lesson.
abbrev pub is_step : ℕ → ℕ → LearnDb → Bool
is_step lesson key db =
    any?
      (λ c. c.key == key && c.is_active && elim c.module_id [ none ↦ false | some m ↦ m == lesson ])
      db.contents
    || any? (λ q. q.key == key && q.is_active && q.module_id == lesson) db.questions

abbrev pub find_lesson_by_key : String → LearnDb → Option Lesson
find_lesson_by_key key db = find? (λ m. same_string m.key key) db.lessons

unfoldable pub save_position : ℕ → ℕ → ℕ → LearnDb → LearnDb
save_position user lesson key db = elim (find_progress user lesson db) [
  | none ↦ record db {
    progress =
        record {
          user_id = user;
          module_id = lesson;
          last_content_item_key = some key;
          completed_at = none;
        }
        ∷ db.progress;
  }
  | some old ↦ record db {
    progress =
        update_where (is_progress_of user lesson)
          (λ r. record r { last_content_item_key = some key }) db.progress;
  }
]

unfoldable pub mark_content : ℕ → String → ℕ → Action LearnDb (Option LessonProgress)
mark_content user lesson_key key = do
  m ← or_throw (← gets (find_lesson_by_key lesson_key)) content_not_found
  throw_if (not m.is_published) content_not_found
  known ← gets (is_step m.id key)
  throw_if (not known) content_not_found
  modify (save_position user m.id key)
  gets (find_progress user m.id)
