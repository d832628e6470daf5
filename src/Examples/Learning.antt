-- ===== src/Examples/Learning.antt =====
-- The laws of the lessons, on a small catalog.
use smartpig_backend.Common.{
  ℕ, ◌*◌, ◌≡◌, refl, pos, true, false, [], ◌∷◌, ok, Fails, Found, same_text,
}
use smartpig_backend.Experience.{
  climb, level_of, calculate_experience_level, profile, credit, grant, unlock_earned_rewards,
  unlock_each, tier_for_level, ExperienceTier,
}
use smartpig_backend.Learning.Catalog.{Lesson, Question, LearnDb}
use smartpig_backend.Learning.{
  Answered, find_answer, save_answer, save_progress, required_count, correct_count,
  is_lesson_complete, is_intro_complete, grant_when, award, record_attempt, answer_question,
  submit_answer,
}
use smartpig_backend.Learning.Answers.{IsFirstCorrect}
use smartpig_backend.Learning.Awards.{Accounts, submit_answer-Accounts}

abbrev curve : ℕ → ℕ
curve level = 40 * level

abbrev first_lesson : Lesson
first_lesson = record { id = 1; key = "M1"; completion_xp = pos 15; is_published = true }

abbrev question : Question
question = record {
  id = 10;
  key = 100;
  module_id = 1;
  content_version = 2;
  correct_option_key = 7;
  option_keys = 6 ∷ 7 ∷ [];
  success_feedback = "yes";
  retry_feedback = "no";
  is_required = true;
  is_active = true;
}

abbrev learn_db : LearnDb
learn_db = record {
  lessons = first_lesson ∷ [];
  contents = [];
  questions = question ∷ [];
  answers = [];
  progress = [];
  xp = record { ledger = []; accounts = []; rewards = []; unlocks = [] };
}

abbrev answered_db : LearnDb
answered_db = (submit_answer curve 45 1000 1 100 7 2 learn_db).1

first_answer : Found (find_answer 1 10 answered_db) (IsFirstCorrect 1000)
unfolding submit_answer answer_question record_attempt save_answer save_progress award grant_when
    is_lesson_complete required_count correct_count is_intro_complete grant same_text
first_answer = refl

submit_answer-Accounts_example :
    Accounts curve 1 learn_db (submit_answer curve 45 1000 1 100 7 2 learn_db)
    × (Fails (submit_answer curve 45 1000 1 100 7 2 learn_db).0
        → (submit_answer curve 45 1000 1 100 7 2 learn_db).1 ≡ learn_db)
submit_answer-Accounts_example = submit_answer-Accounts curve 45 1000 1 100 7 2 learn_db

abbrev answered : Answered
answered = record {
  correct = true;
  feedback = "yes";
  first_correct = true;
  lesson_completed = true;
  module_completed = false;
  xp_awarded = 15;
  lesson_xp_awarded = 15;
  intro_xp_awarded = 0;
  total_xp = 15;
  level_before = 0;
  level_after = 0;
  tier_after = ExperienceTier.unranked;
  correct_required = 1;
  required = 1;
}

abbrev answered_again : Answered
answered_again = record answered {
  first_correct = false;
  lesson_completed = false;
  xp_awarded = 0;
  lesson_xp_awarded = 0;
}

abbrev again_db : LearnDb
again_db = (submit_answer curve 45 2000 1 100 7 2 answered_db).1

lesson_answered : submit_answer curve 45 1000 1 100 7 2 learn_db ≡ (ok answered, answered_db)
unfolding submit_answer answer_question record_attempt save_answer save_progress award grant_when
    is_lesson_complete required_count correct_count is_intro_complete grant credit profile
    calculate_experience_level level_of climb tier_for_level unlock_earned_rewards unlock_each
    same_text
lesson_answered = refl

lesson_answered_again :
    submit_answer curve 45 2000 1 100 7 2 answered_db ≡ (ok answered_again, again_db)
unfolding submit_answer answer_question record_attempt save_answer save_progress award grant_when
    is_lesson_complete required_count correct_count is_intro_complete grant credit profile
    calculate_experience_level level_of climb tier_for_level unlock_earned_rewards unlock_each
    same_text
lesson_answered_again = refl
