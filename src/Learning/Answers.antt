-- ===== src/Learning/Answers.antt =====
-- What an answer keeps (src/learning/learning.service.ts: submitAnswer).
use smartpig_backend.Common.{
  ℕ, ◌≡◌, refl, sym, Bool, true, some, Fails, Found, Option-cases, find?-accepts, ap, ◌∙◌,
  if◌then◌else◌, Bool-cases, inl, inr, arith, ==_iff, find?-update_where, Action, atomic,
}
use smartpig_backend.Learning.Catalog.{Lesson, Question, QuestionProgress, LessonProgress, LearnDb}
use smartpig_backend.Learning.{
  find_answer, find_progress, is_answer_of, is_progress_of, save_answer, save_progress, attempt,
  complete, is_first_correct, grant_when, award, record_attempt, answer_question, submit_answer,
}

-- A throw of a transaction leaves the tables as they were.
atomic-Fails : {W A : Type 0} (m : Action W A) (w : W) → Fails (atomic m w).0 → (atomic m w).1 ≡ w
atomic-Fails m w h = ground arith

-- The first correct answer of the row, and its instant.
abbrev pub IsFirstCorrect : ℕ → QuestionProgress → Type 0
IsFirstCorrect t r = r.first_correct_at ≡ some t

-- The row that an answer is stored in is the one that is found under its keys.
answer_keys :
    (user question : ℕ) (r : QuestionProgress)
    → is_answer_of user question r ≡ true
    → (r.user_id ≡ user) × (r.question_id ≡ question)
answer_keys user question r h = (ground arith, ground arith)

save_answer-found :
    (now user : ℕ) (q : Question) (option : ℕ) (u question t : ℕ) (db : LearnDb)
    (old r : QuestionProgress)
    → find_answer user q.id db ≡ some old
    → find_answer u question db ≡ some r
    → IsFirstCorrect t r
    → (is_answer_of user q.id r ≡ true → r ≡ old)
    → Found (find_answer u question (save_answer now user q option db)) (IsFirstCorrect t)
unfolding save_answer
save_answer-found now user q option u question t db old r here found first same =
    let f : QuestionProgress → QuestionProgress =
      attempt now q option (is_first_correct user q option db) in
    let step : find_answer u question (save_answer now user q option db)
        ≡ some (if is_answer_of user q.id r then f r else r) =
      ground (
        arith,
        find?-update_where (is_answer_of u question) (is_answer_of user q.id) f db.answers
            (λ r. refl),
      ) in
    elim (Bool-cases (is_answer_of user q.id r)) [
      | inl hit ↦ ground (arith, step, same hit)
      | inr miss ↦ ground (arith, step)
    ]

same_row :
    (user question u v : ℕ) (db : LearnDb) {old r : QuestionProgress}
    → find_answer user question db ≡ some old
    → find_answer u v db ≡ some r
    → is_answer_of user question r ≡ true
    → r ≡ old
same_row user question u v db {old} {r} here found hit =
    let mine = answer_keys user question r hit in
    let own = answer_keys u v r (find?-accepts (is_answer_of u v) db.answers found) in
    let a : user ≡ u = cc in
    let b : question ≡ v = cc in
    let both : some old ≡ some r =
      sym here
      ∙ (ap (λ x. find_answer x question db) a ∙ (ap (λ x. find_answer u x db) b ∙ found)) in
    ground arith

save_answer-keeps :
    (now user : ℕ) (q : Question) (option : ℕ) (u question t : ℕ) (db : LearnDb)
    {r : QuestionProgress}
    → find_answer u question db ≡ some r
    → IsFirstCorrect t r
    → Found (find_answer u question (save_answer now user q option db)) (IsFirstCorrect t)
unfolding save_answer
save_answer-keeps now user q option u question t db {r} found first =
    elim (Option-cases (find_answer user q.id db)) [
      | inl missing ↦ ground (arith, ==_iff user u, ==_iff q.id question, missing, found)
      | inr here ↦
          save_answer-found now user q option u question t db here.0 r here.1 found first
            (same_row user q.id u question db {old = here.0} {r = r} here.1 found)
    ]

-- The rest of the transaction writes no answer.
award-answers :
    (curve : ℕ → ℕ) (intro_xp user : ℕ) (m : Lesson) (done now_done : Bool) (db : LearnDb)
    → ((award curve intro_xp user m done now_done db).1.answers ≡ db.answers)
      × ((award curve intro_xp user m done now_done db).1.progress ≡ db.progress)
unfolding award grant_when
award-answers curve intro_xp user m done now_done db = (ground arith, ground arith)

save_progress-answers :
    (now user lesson : ℕ) (done : Bool) (db : LearnDb)
    → (save_progress now user lesson done db).answers ≡ db.answers
unfolding save_progress
save_progress-answers now user lesson done db = ground arith

answer_question-answers :
    (curve : ℕ → ℕ) (intro_xp now user : ℕ) (q : Question) (m : Lesson) (option : ℕ) (db : LearnDb)
    → (answer_question curve intro_xp now user q m option db).1.answers
      ≡ (save_answer now user q option db).answers
unfolding answer_question record_attempt
answer_question-answers curve intro_xp now user q m option db =
    grind (arith, award-answers curve intro_xp user m, save_progress-answers now user q.module_id)

-- The first correct answer of a user to a question keeps its instant, over every later submission, by
-- whomever and of whatever, answered or refused.
IsFirstCorrect-kept :
    (curve : ℕ → ℕ) (intro_xp now user question_key option version u question t : ℕ) (db : LearnDb)
    → Found (find_answer u question db) (IsFirstCorrect t)
    → Found
        (find_answer u question
          (submit_answer curve intro_xp now user question_key option version db).1)
        (IsFirstCorrect t)
unfolding submit_answer
IsFirstCorrect-kept curve intro_xp now user question_key option version u question t db first =
    elim (Option-cases (find_answer u question db)) [
      | inl missing ↦ absurd (ground arith)
      | inr found ↦ grind (
        arith,
        λ (q : Question) (m : Lesson).
            answer_question-answers curve intro_xp now user q m option db,
        λ (q : Question).
            save_answer-keeps now user q option u question t db {r = found.0} found.1
              (ground arith),
      )
    ]

-- The instant of the completion.
abbrev pub IsCompleted : ℕ → LessonProgress → Type 0
IsCompleted t r = r.completed_at ≡ some t

save_progress-keeps :
    (now user lesson : ℕ) (done : Bool) (u v t : ℕ) (db : LearnDb)
    → Found (find_progress u v db) (IsCompleted t)
    → Found (find_progress u v (save_progress now user lesson done db)) (IsCompleted t)
unfolding save_progress
save_progress-keeps now user lesson done u v t db h = ground (
  arith,
  ==_iff user u,
  ==_iff lesson v,
  find?-update_where (is_progress_of u v) (is_progress_of user lesson) (complete now done)
      db.progress (λ r. refl),
)

save_answer-progress :
    (now user : ℕ) (q : Question) (option : ℕ) (db : LearnDb)
    → (save_answer now user q option db).progress ≡ db.progress
unfolding save_answer
save_answer-progress now user q option db = ground arith

answer_question-IsCompleted :
    (curve : ℕ → ℕ) (intro_xp now user : ℕ) (q : Question) (m : Lesson) (option u v t : ℕ)
    (db : LearnDb)
    → Found (find_progress u v db) (IsCompleted t)
    → Found
        (find_progress u v (answer_question curve intro_xp now user q m option db).1)
        (IsCompleted t)
unfolding answer_question record_attempt
answer_question-IsCompleted curve intro_xp now user q m option u v t db h = grind (
  arith,
  award-answers curve intro_xp user m,
  save_answer-progress now user q option db,
  λ (done : Bool).
      save_progress-keeps now user q.module_id done u v t (save_answer now user q option db),
)

-- A lesson that a user completed keeps the instant of its completion, over every later submission.
pub completion_kept :
    (curve : ℕ → ℕ) (intro_xp now user question_key option version u lesson t : ℕ) (db : LearnDb)
    → Found (find_progress u lesson db) (IsCompleted t)
    → Found
        (find_progress u lesson
          (submit_answer curve intro_xp now user question_key option version db).1)
        (IsCompleted t)
unfolding submit_answer
completion_kept curve intro_xp now user question_key option version u lesson t db h = grind (
  arith,
  λ (q : Question) (m : Lesson).
      answer_question-IsCompleted curve intro_xp now user q m option u lesson t db h,
)
