-- ===== src/Learning/Catalog.antt =====
-- The tables of the lessons (prisma/schema.prisma: LearningModule, LearningContentItem,
-- LearningQuestion, UserLearningQuestionProgress, UserLearningModuleProgress). Texts that are only shown
-- are left out; keys of questions, options and contents are only compared, so they are numbers.
use smartpig_backend.Common.{ℕ, ℤ, Bool, List, Option, String}
use smartpig_backend.Experience.{XpDb}

pub record Lesson : Type 0 where
  pub id : ℕ
  pub key : String
  pub completion_xp : ℤ
  pub is_published : Bool

pub record ContentItem : Type 0 where
  pub key : ℕ
  pub module_id : Option ℕ
  pub is_active : Bool

pub record Question : Type 0 where
  pub id : ℕ
  pub key : ℕ
  pub module_id : ℕ
  pub content_version : ℕ
  pub correct_option_key : ℕ
  pub option_keys : List ℕ
  pub success_feedback : String
  pub retry_feedback : String
  pub is_required : Bool
  pub is_active : Bool

pub record QuestionProgress : Type 0 where
  pub user_id : ℕ
  pub question_id : ℕ
  pub attempts : ℕ
  pub first_correct_at : Option ℕ
  pub last_answered_at : Option ℕ
  pub last_selected_option_key : Option ℕ
  pub last_content_version : Option ℕ

pub record LessonProgress : Type 0 where
  pub user_id : ℕ
  pub module_id : ℕ
  pub last_content_item_key : Option ℕ
  pub completed_at : Option ℕ

pub record LearnDb : Type 0 where
  pub lessons : List Lesson
  pub contents : List ContentItem
  pub questions : List Question
  pub answers : List QuestionProgress
  pub progress : List LessonProgress
  pub xp : XpDb
