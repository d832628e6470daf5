-- ===== src/Learning/Awards.antt =====
-- What an answer awards (src/learning/learning.service.ts: submitAnswer).
use smartpig_backend.Common.{
  ℕ, suc, ◌+◌, ◌≡◌, ◌⊎◌, Bool, true, false, none, some, ◌∷◌, Result, ok, err, Fails, Returns, arith,
}
use smartpig_backend.Experience
use smartpig_backend.Experience.{
  GrantXpInput, LedgerEntry, XpDb, grant, credit, unlock_earned_rewards, same_source,
  find_xp_account, calculate_experience_level,
}
use smartpig_backend.Experience.Ledger.{IsBalanced, grant-IsBalanced, credit-own}
use smartpig_backend.Learning.Catalog.{Lesson, Question, LearnDb}
use smartpig_backend.Learning.{
  grant_when, lesson_grant, intro_grant, award, record_attempt, answer_question, submit_answer,
  Answered, save_answer, save_progress,
}

module _ (curve : ℕ → ℕ) where
  -- The total of the user's profile.
  abbrev pub total_of : ℕ → XpDb → ℕ
  total_of user db = elim (find_xp_account user db) [ none ↦ 0 | some a ↦ a.total_xp ]

  grant-total :
      (i : GrantXpInput) (db : XpDb)
      → Returns
          (grant curve i db).0
          (λ r. total_of i.user_id (grant curve i db).1 ≡ total_of i.user_id db + r.points_granted)
        ⊎ Fails (grant curve i db).0
  unfolding grant unlock_earned_rewards
  grant-total i db = grind (
    arith,
    λ (n : ℕ) (e : LedgerEntry).
        credit-own curve i.user_id (suc n) (record db { ledger = e ∷ db.ledger }),
  )

  grant_when-total :
      (intro_xp : ℕ) (test : Bool) (i : GrantXpInput) (db : LearnDb) (n : ℕ)
      → (grant_when curve intro_xp test i db).0 ≡ ok n
      → total_of i.user_id (grant_when curve intro_xp test i db).1.xp ≡ total_of i.user_id db.xp + n
  unfolding grant_when
  grant_when-total intro_xp true i db n h = ground (arith, grant-total i db.xp)
  grant_when-total intro_xp false i db n h = ground arith

  -- The total grew by the points of the two grants.
  abbrev Grew : ℕ → LearnDb → Result (ℕ × ℕ) × LearnDb → Type 0
  Grew user before (ok points, after) =
      total_of user after.xp ≡ total_of user before.xp + points.0 + points.1
  Grew user before (err e, after) = Unit

  award-Grew :
      (intro_xp user : ℕ) (m : Lesson) (done now_done : Bool) (db : LearnDb)
      → Grew user db (award curve intro_xp user m done now_done db)
  unfolding award
  award-Grew intro_xp user m done now_done db = grind (
    arith,
    λ (test : Bool) (w : LearnDb) (n : ℕ).
        grant_when-total intro_xp test (lesson_grant curve intro_xp user m) w n,
    λ (test : Bool) (w : LearnDb) (n : ℕ).
        grant_when-total intro_xp test (intro_grant curve intro_xp user) w n,
  )

  pub record_attempt-xp :
      (intro_xp now user : ℕ) (q : Question) (option : ℕ) (db : LearnDb)
      → (record_attempt curve intro_xp now user q option db).1.xp ≡ db.xp
  unfolding record_attempt save_answer save_progress
  record_attempt-xp intro_xp now user q option db = ground arith

  -- The answer's points are what the total of the user grew by.
  abbrev pub Accounts : ℕ → LearnDb → Result Answered × LearnDb → Type 0
  Accounts user before (ok a, after) =
      (a.total_xp ≡ total_of user before.xp + a.xp_awarded)
      × (total_of user after.xp ≡ a.total_xp)
      × (a.xp_awarded ≡ a.lesson_xp_awarded + a.intro_xp_awarded)
  Accounts user before (err e, after) = Unit

  answer_question-Accounts :
      (intro_xp now user : ℕ) (q : Question) (m : Lesson) (option : ℕ) (db : LearnDb)
      → Accounts user db (answer_question curve intro_xp now user q m option db)
  unfolding answer_question Experience.profile calculate_experience_level
  answer_question-Accounts intro_xp now user q m option db = grind (
    arith,
    record_attempt-xp intro_xp now user q option db,
    λ (done now_done : Bool).
        award-Grew intro_xp user m done now_done
          (record_attempt curve intro_xp now user q option db).1,
  )

  -- An answer that is given: the total that it shows is the total before and the points that it
  -- awarded, which are those of the lesson and of the introduction, and is the total of the account
  -- afterwards. A submission that throws writes nothing.
  pub submit_answer-Accounts :
      (intro_xp now user question_key option version : ℕ) (db : LearnDb)
      → Accounts user db (submit_answer curve intro_xp now user question_key option version db)
        × (Fails (submit_answer curve intro_xp now user question_key option version db).0
            → (submit_answer curve intro_xp now user question_key option version db).1 ≡ db)
  unfolding submit_answer
  submit_answer-Accounts intro_xp now user question_key option version db = (
    grind (
      arith,
      λ (q : Question) (m : Lesson). answer_question-Accounts intro_xp now user q m option db,
    ),
    λ h. ground arith,
  )

  grant_when-IsBalanced :
      (intro_xp : ℕ) (test : Bool) (i : GrantXpInput) (user : ℕ) (db : LearnDb)
      → IsBalanced curve i.user_id db.xp
      → IsBalanced curve user db.xp
      → IsBalanced curve user (grant_when curve intro_xp test i db).1.xp
  unfolding grant_when
  grant_when-IsBalanced intro_xp true i user db own h =
      ground (arith, grant-IsBalanced curve i user db.xp own h)
  grant_when-IsBalanced intro_xp false i user db own h = h
