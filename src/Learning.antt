-- ===== src/Learning.antt =====
-- Answering questions and completing lessons (src/learning/learning.service.ts: submitAnswer,
-- experienceProfile). The advisory lock makes two answers of one user follow one another.
pub mod Catalog
pub mod Answers
pub mod Awards
pub mod Once
pub mod Position
use smartpig_backend.Common.{
  ℕ, ◌+◌, zero, suc, ℤ, pos, negsuc, Bool, true, false, ◌&&◌, ◌||◌, not, Option, none, some, List,
  [], ◌∷◌, String, ◌==◌, leb, ltb, if◌then◌else◌, find?, any?, includes, count_where, update_where,
  is_some, same_string, http, ErrorKind, Exception, Result, ok, err, Action, pure, throw, gets,
  modify, or_throw, throw_if, atomic, ◌>>=◌, ◌>>◌,
}
use smartpig_backend.Experience
use smartpig_backend.Experience.{
  XpDb, GrantXpInput, GrantXpResult, ExperienceLevel, ExperienceTier, grant,
}
use Catalog.{Lesson, ContentItem, Question, QuestionProgress, LessonProgress, LearnDb}

abbrev pub question_not_found : Exception
question_not_found = http ErrorKind.not_found "Learning question not found"

abbrev pub version_stale : Exception
version_stale = http ErrorKind.conflict "LEARNING_CONTENT_VERSION_STALE"

abbrev pub option_not_found : Exception
option_not_found = http ErrorKind.not_found "Answer option not found for this question"

-- `INTRO_LESSON_KEYS`
abbrev pub intro_lesson_keys : List String
intro_lesson_keys = "M1" ∷ "M2" ∷ "M3" ∷ "M4" ∷ "M5" ∷ []

abbrev pub is_intro : Lesson → Bool
is_intro m = any? (same_string m.key) intro_lesson_keys && m.is_published

abbrev pub find_question : ℕ → LearnDb → Option Question
find_question key db = find? (λ q. q.key == key) db.questions

abbrev pub find_lesson : ℕ → LearnDb → Option Lesson
find_lesson id db = find? (λ m. m.id == id) db.lessons

abbrev pub is_answer_of : ℕ → ℕ → QuestionProgress → Bool
is_answer_of user question r = r.user_id == user && r.question_id == question

abbrev pub find_answer : ℕ → ℕ → LearnDb → Option QuestionProgress
find_answer user question db = find? (is_answer_of user question) db.answers

abbrev pub is_progress_of : ℕ → ℕ → LessonProgress → Bool
is_progress_of user lesson r = r.user_id == user && r.module_id == lesson

abbrev pub find_progress : ℕ → ℕ → LearnDb → Option LessonProgress
find_progress user lesson db = find? (is_progress_of user lesson) db.progress

-- `prior?.firstCorrectAt`, `priorModule?.completedAt`
abbrev pub first_correct_at : Option QuestionProgress → Option ℕ
first_correct_at none = none
first_correct_at (some r) = r.first_correct_at

abbrev pub completed_at : Option LessonProgress → Option ℕ
completed_at none = none
completed_at (some r) = r.completed_at

-- A row of the question's progress after one more attempt.
abbrev pub attempt : ℕ → Question → ℕ → Bool → QuestionProgress → QuestionProgress
attempt now q option first r = record r {
  attempts = r.attempts + 1;
  first_correct_at = if first then some now else r.first_correct_at;
  last_answered_at = some now;
  last_selected_option_key = some option;
  last_content_version = some q.content_version;
}

abbrev pub new_answer : ℕ → ℕ → Question → ℕ → Bool → QuestionProgress
new_answer now user q option correct = record {
  user_id = user;
  question_id = q.id;
  attempts = 1;
  first_correct_at = if correct then some now else none;
  last_answered_at = some now;
  last_selected_option_key = some option;
  last_content_version = some q.content_version;
}

abbrev pub is_correct : Question → ℕ → Bool
is_correct q option = option == q.correct_option_key

-- `correct && !prior?.firstCorrectAt`
abbrev pub is_first_correct : ℕ → Question → ℕ → LearnDb → Bool
is_first_correct user q option db =
    is_correct q option && not (is_some (first_correct_at (find_answer user q.id db)))

-- `userLearningQuestionProgress.upsert`
unfoldable pub save_answer : ℕ → ℕ → Question → ℕ → LearnDb → LearnDb
save_answer now user q option db = elim (find_answer user q.id db) [
  | none ↦ record db { answers = new_answer now user q option (is_correct q option) ∷ db.answers }
  | some old ↦ record db {
    answers =
        update_where (is_answer_of user q.id)
          (attempt now q option (is_first_correct user q option db)) db.answers;
  }
]

abbrev pub counts_for : ℕ → Question → Bool
counts_for lesson q = q.module_id == lesson && q.is_active && q.is_required

unfoldable pub required_count : ℕ → LearnDb → ℕ
required_count lesson db = count_where (counts_for lesson) db.questions

-- The relation filter on `question`.
abbrev pub is_required_question : ℕ → ℕ → LearnDb → Bool
is_required_question lesson question db =
    any? (λ q. q.id == question && counts_for lesson q) db.questions

unfoldable pub correct_count : ℕ → ℕ → LearnDb → ℕ
correct_count user lesson db =
    count_where
      (λ r.
        r.user_id == user
        && is_some r.first_correct_at
        && is_required_question lesson r.question_id db)
      db.answers

unfoldable pub is_lesson_complete : ℕ → ℕ → LearnDb → Bool
is_lesson_complete user lesson db =
    ltb 0 (required_count lesson db)
    && leb (required_count lesson db) (correct_count user lesson db)

-- `{ completedAt: priorModule?.completedAt ?? answeredAt }`, or no change.
abbrev pub complete : ℕ → Bool → LessonProgress → LessonProgress
complete now done r = record r {
  completed_at =
      if done
      then (if is_some r.completed_at then r.completed_at else some now)
      else r.completed_at;
}

-- `userLearningModuleProgress.upsert`
unfoldable pub save_progress : ℕ → ℕ → ℕ → Bool → LearnDb → LearnDb
save_progress now user lesson done db = elim (find_progress user lesson db) [
  | none ↦ record db {
    progress =
        record {
          user_id = user;
          module_id = lesson;
          last_content_item_key = none;
          completed_at = if done then some now else none;
        }
        ∷ db.progress;
  }
  | some old ↦ record db {
    progress = update_where (is_progress_of user lesson) (complete now done) db.progress;
  }
]

abbrev pub is_positive : ℤ → Bool
is_positive (pos zero) = false
is_positive (pos (suc n)) = true
is_positive (negsuc n) = false

-- `ExperienceXpSourceType.LEARNING_MODULE`, and its references: `module:INTRO`, and `lesson:` and the key
-- of a module, which its identifier stands for.
abbrev pub learning_source : ℕ
learning_source = 1

abbrev pub intro_ref : ℕ
intro_ref = 0

abbrev pub lesson_ref : Lesson → ℕ
lesson_ref m = m.id + 1

-- A call of the ledger within the transaction.
abbrev pub on_xp : {A : Type 0} → Action XpDb A → Action LearnDb A
on_xp m db = let (r, xp) = m db.xp in (r, record db { xp = xp })

abbrev pub is_intro_progress : ℕ → LearnDb → LessonProgress → Bool
is_intro_progress user db r =
    r.user_id == user
    && is_some r.completed_at
    && any? (λ m. m.id == r.module_id && is_intro m) db.lessons

-- The five lessons are published, and the user completed them.
unfoldable pub is_intro_complete : ℕ → LearnDb → Bool
is_intro_complete user db =
    count_where is_intro db.lessons == 5
    && leb 5 (count_where (is_intro_progress user db) db.progress)

pub record Answered : Type 0 where
  pub correct : Bool
  pub feedback : String
  pub first_correct : Bool
  pub lesson_completed : Bool
  pub module_completed : Bool
  pub xp_awarded : ℕ
  pub lesson_xp_awarded : ℕ
  pub intro_xp_awarded : ℕ
  pub total_xp : ℕ
  pub level_before : ℕ
  pub level_after : ℕ
  pub tier_after : ExperienceTier
  pub correct_required : ℕ
  pub required : ℕ

-- The level curve, and `LEARNING_INTRO_MODULE_COMPLETION_XP`, a whole number that is not negative.
module _ (curve : ℕ → ℕ) (intro_xp : ℕ) where
  -- A grant, where its condition holds; the points that were granted.
  unfoldable pub grant_when : Bool → GrantXpInput → Action LearnDb ℕ
  grant_when false i = pure 0
  grant_when true i = do r ← on_xp (grant curve i); pure r.points_granted

  abbrev pub lesson_grant : ℕ → Lesson → GrantXpInput
  lesson_grant user m = record {
    user_id = user;
    source_type = learning_source;
    source_ref = lesson_ref m;
    points = m.completion_xp;
  }

  abbrev pub intro_grant : ℕ → GrantXpInput
  intro_grant user = record {
    user_id = user;
    source_type = learning_source;
    source_ref = intro_ref;
    points = pos intro_xp;
  }

  -- The two grants of the transaction: for the lesson, and for the five of the introduction.
  unfoldable pub award : ℕ → Lesson → Bool → Bool → Action LearnDb (ℕ × ℕ)
  award user m done completed_now = do
    lesson ← grant_when (done && is_positive m.completion_xp) (lesson_grant user m)
    intro_done ← gets (is_intro_complete user)
    intro ← grant_when (completed_now && intro_done && ltb 0 intro_xp) (intro_grant user)
    pure (lesson, intro)

  -- The progress of the question, then that of the lesson: whether it is complete, and whether it is
  -- so now.
  unfoldable pub record_attempt : ℕ → ℕ → Question → ℕ → Action LearnDb (Bool × Bool)
  record_attempt now user q option = do
    modify (save_answer now user q option)
    done ← gets (is_lesson_complete user q.module_id)
    prior ← gets (find_progress user q.module_id)
    modify (save_progress now user q.module_id done)
    pure (done, done && not (is_some (completed_at prior)))

  unfoldable pub answer_question : ℕ → ℕ → Question → Lesson → ℕ → Action LearnDb Answered
  answer_question now user q m option = do
    before ← gets (λ db. Experience.profile curve user db.xp)
    first ← gets (is_first_correct user q option)
    progress ← record_attempt now user q option
    points ← award user m progress.0 progress.1
    after ← gets (λ db. Experience.profile curve user db.xp)
    correct_required ← gets (correct_count user q.module_id)
    required ← gets (required_count q.module_id)
    pure (record {
      correct = is_correct q option;
      feedback = if is_correct q option then q.success_feedback else q.retry_feedback;
      first_correct = first;
      lesson_completed = progress.1;
      module_completed = ltb 0 points.1;
      xp_awarded = points.0 + points.1;
      lesson_xp_awarded = points.0;
      intro_xp_awarded = points.1;
      total_xp = after.total_xp;
      level_before = before.level;
      level_after = after.level;
      tier_after = after.tier;
      correct_required = correct_required;
      required = required;
    })

  -- The transaction of `submitAnswer`; the refresh of the unlocks after it writes no table of these.
  unfoldable pub submit_answer : ℕ → ℕ → ℕ → ℕ → ℕ → Action LearnDb Answered
  submit_answer now user question_key option version = atomic (do
    q ← or_throw (← gets (find_question question_key)) question_not_found
    m ← or_throw (← gets (find_lesson q.module_id)) question_not_found
    throw_if (not (q.is_active && m.is_published)) question_not_found
    throw_if (not (q.content_version == version)) version_stale
    throw_if (not (includes option q.option_keys)) option_not_found
    answer_question now user q m option)
