-- ===== src/Learning/Once.antt =====
-- A lesson awards its points once (src/learning/learning.service.ts: submitAnswer).
use smartpig_backend.Common.{ℕ, ◌<◌, ◌≡◌, Bool, true, false, Result, ok, err, any?, arith, ==_iff}
use smartpig_backend.Experience.{
  GrantXpInput, GrantXpResult, XpDb, grant, credit, unlock_earned_rewards, same_source,
}
use smartpig_backend.Learning.Catalog.{Lesson, Question, LearnDb}
use smartpig_backend.Learning.{
  grant_when, lesson_grant, intro_grant, award, record_attempt, answer_question, submit_answer,
  Answered, save_answer, save_progress,
}
use smartpig_backend.Learning.Awards.{record_attempt-xp}

-- The ledger has an entry of the source.
abbrev pub has_source : GrantXpInput → XpDb → Bool
has_source i xp = any? (same_source i) xp.ledger

module _ (curve : ℕ → ℕ) where
  grant-source :
      (i : GrantXpInput) (db : XpDb) (r : GrantXpResult)
      → (grant curve i db).0 ≡ ok r
      → (has_source i (grant curve i db).1 ≡ true) × (has_source i db ≡ true → r.points_granted ≡ 0)
  unfolding grant unlock_earned_rewards credit
  grant-source i db r h = (
    ground (
      arith,
      ==_iff i.user_id i.user_id,
      ==_iff i.source_type i.source_type,
      ==_iff i.source_ref i.source_ref,
    ),
    λ had. ground arith,
  )

  grant-keeps :
      (i j : GrantXpInput) (db : XpDb)
      → has_source j db ≡ true
      → has_source j (grant curve i db).1 ≡ true
  unfolding grant unlock_earned_rewards credit
  grant-keeps i j db h = ground arith

  grant_when-keeps :
      (intro_xp : ℕ) (test : Bool) (i j : GrantXpInput) (db : LearnDb)
      → has_source j db.xp ≡ true
      → has_source j (grant_when curve intro_xp test i db).1.xp ≡ true
  unfolding grant_when
  grant_when-keeps intro_xp true i j db h = ground (arith, grant-keeps i j db.xp h)
  grant_when-keeps intro_xp false i j db h = h

  grant_when-source :
      (intro_xp : ℕ) (test : Bool) (i : GrantXpInput) (db : LearnDb) (n : ℕ)
      → (grant_when curve intro_xp test i db).0 ≡ ok n
      → (0 < n → has_source i (grant_when curve intro_xp test i db).1.xp ≡ true)
        × (has_source i db.xp ≡ true → n ≡ 0)
  unfolding grant_when
  grant_when-source intro_xp true i db n h = (
    (λ some_points. grind (arith, grant-source i db.xp)),
    λ had. grind (arith, grant-source i db.xp),
  )
  grant_when-source intro_xp false i db n h =
      ((λ some_points. absurd (ground arith)), λ had. ground arith)

  -- What the two grants say of the lesson's source, before and after.
  abbrev Once : ℕ → ℕ → Lesson → LearnDb → Result (ℕ × ℕ) × LearnDb → Type 0
  Once intro_xp user m before (ok points, after) =
      (0 < points.0 → has_source (lesson_grant curve intro_xp user m) after.xp ≡ true)
      × (has_source (lesson_grant curve intro_xp user m) before.xp ≡ true → points.0 ≡ 0)
  Once intro_xp user m before (err e, after) = Unit

  award-Once :
      (intro_xp user : ℕ) (m : Lesson) (done now_done : Bool) (db : LearnDb)
      → Once intro_xp user m db (award curve intro_xp user m done now_done db)
  unfolding award
  award-Once intro_xp user m done now_done db = grind (
    arith,
    λ (test : Bool) (n : ℕ).
        grant_when-source intro_xp test (lesson_grant curve intro_xp user m) db n,
    λ (test : Bool) (w : LearnDb).
        grant_when-keeps intro_xp test (intro_grant curve intro_xp user)
          (lesson_grant curve intro_xp user m) w,
  )

  -- The same of an answer.
  abbrev AnsweredOnce : ℕ → ℕ → Lesson → LearnDb → Result Answered × LearnDb → Type 0
  AnsweredOnce intro_xp user m before (ok a, after) =
      (0 < a.lesson_xp_awarded → has_source (lesson_grant curve intro_xp user m) after.xp ≡ true)
      × (has_source (lesson_grant curve intro_xp user m) before.xp ≡ true → a.lesson_xp_awarded ≡ 0)
  AnsweredOnce intro_xp user m before (err e, after) = Unit

  answer_question-Once :
      (intro_xp now user : ℕ) (q : Question) (m : Lesson) (option : ℕ) (db : LearnDb)
      → AnsweredOnce intro_xp user m db (answer_question curve intro_xp now user q m option db)
  unfolding answer_question
  answer_question-Once intro_xp now user q m option db = grind (
    arith,
    record_attempt-xp curve intro_xp now user q option db,
    λ (done now_done : Bool).
        award-Once intro_xp user m done now_done
          (record_attempt curve intro_xp now user q option db).1,
  )

  -- The catalog is not written.
  abbrev SameCatalog : LearnDb → LearnDb → Type 0
  SameCatalog a b = (a.questions ≡ b.questions) × (a.lessons ≡ b.lessons)

  award-SameCatalog :
      (intro_xp user : ℕ) (m : Lesson) (done now_done : Bool) (db : LearnDb)
      → SameCatalog (award curve intro_xp user m done now_done db).1 db
  unfolding award grant_when
  award-SameCatalog intro_xp user m done now_done db = (ground arith, ground arith)

  record_attempt-SameCatalog :
      (intro_xp now user : ℕ) (q : Question) (option : ℕ) (db : LearnDb)
      → SameCatalog (record_attempt curve intro_xp now user q option db).1 db
  unfolding record_attempt save_answer save_progress
  record_attempt-SameCatalog intro_xp now user q option db = (ground arith, ground arith)

  answer_question-SameCatalog :
      (intro_xp now user : ℕ) (q : Question) (m : Lesson) (option : ℕ) (db : LearnDb)
      → SameCatalog (answer_question curve intro_xp now user q m option db).1 db
  unfolding answer_question
  answer_question-SameCatalog intro_xp now user q m option db = grind (
    arith,
    award-SameCatalog intro_xp user m,
    record_attempt-SameCatalog intro_xp now user q option,
  )

  -- A lesson awards its points once: after an answer that awarded points for the lesson, every later
  -- answer of the same user to the same question awards none for it.
  lesson_awards_once :
      (intro_xp now later user question_key option version another another_version : ℕ)
      (db : LearnDb) {a b : Answered} {after last : LearnDb}
      → submit_answer curve intro_xp now user question_key option version db ≡ (ok a, after)
      → 0 < a.lesson_xp_awarded
      → submit_answer curve intro_xp later user question_key another another_version after
        ≡ (ok b, last)
      → b.lesson_xp_awarded ≡ 0
  unfolding submit_answer
  lesson_awards_once intro_xp now later user question_key option version another another_version db
        {a} {b} {after} {last} h some_points k =
      grind (
        arith,
        λ (q : Question) (m : Lesson). answer_question-Once intro_xp now user q m option db,
        λ (q : Question) (m : Lesson). answer_question-SameCatalog intro_xp now user q m option db,
        λ (q : Question) (m : Lesson). answer_question-Once intro_xp later user q m another after,
      )
