-- ===== src/FailureClassifier/Matching.antt =====
-- What the failure classifier promises: its search is the substring relation without regard to case,
-- and the order of the table decides.
use smartpig_backend.Common.{
  ℕ, ◌≡◌, ◌⊎◌, ◌↔◌, ◌≢◌, refl, inl, inr, ap, true, false, List, All, [], ◌∷◌, ◌++◌, map, codes,
  arith, Bool-cases, ==_iff, Exception,
}
use smartpig_backend.TransactionState.{FailureCode}
use smartpig_backend.FailureClassifier.{
  lower, begins, contains, patterns, Pattern, describe, first_match, classify_text, contains_any,
  classify_failure,
}

begins_sound :
    (p text : List ℕ)
    → begins p text ≡ true
    → (mid rest : List ℕ) × (text ≡ mid ++ rest) × (map lower mid ≡ p)
unfolding begins
begins_sound [] text h = ([], text, refl, refl)
begins_sound (p ∷ ps) [] h = cc
begins_sound (p ∷ ps) (c ∷ text) h =
    let (mid, rest, e, m) = begins_sound ps text (ground arith) in
    let same : p ≡ lower c = ground (arith, ==_iff p (lower c)) in
    (c ∷ mid, rest, ap (λ (t : List ℕ). c ∷ t) e, cc (same, m))

begins_complete : (mid rest : List ℕ) → begins (map lower mid) (mid ++ rest) ≡ true
unfolding begins
begins_complete [] rest = refl
begins_complete (c ∷ mid) rest =
    ground (arith, ==_iff (lower c) (lower c), begins_complete mid rest)

contains-begins : (p text : List ℕ) → begins p text ≡ true → contains p text ≡ true
unfolding contains
contains-begins p [] h = h
contains-begins p (c ∷ text) h = ground arith

-- The pattern occurs in the text: some stretch of the text is the pattern once in lower case.
abbrev pub Occurs : List ℕ → List ℕ → Type 0
Occurs p text = (before mid rest : List ℕ) × (text ≡ before ++ (mid ++ rest)) × (map lower mid ≡ p)

contains_sound : (p text : List ℕ) → contains p text ≡ true → Occurs p text
unfolding contains
contains_sound p [] h = let (mid, rest, e, m) = begins_sound p [] h in ([], mid, rest, e, m)
contains_sound p (c ∷ text) h = elim (Bool-cases (begins p (c ∷ text))) [
  | inl here ↦ let (mid, rest, e, m) = begins_sound p (c ∷ text) here in ([], mid, rest, e, m)
  | inr later ↦
      let (before, mid, rest, e, m) = contains_sound p text (ground arith) in
      (c ∷ before, mid, rest, ap (λ (t : List ℕ). c ∷ t) e, m)
]

contains_complete :
    (before mid rest : List ℕ) → contains (map lower mid) (before ++ (mid ++ rest)) ≡ true
unfolding contains
contains_complete [] mid rest =
    contains-begins (map lower mid) (mid ++ rest) (begins_complete mid rest)
contains_complete (c ∷ before) mid rest = ground (arith, contains_complete before mid rest)

-- A plain pattern is found in a text exactly when it occurs in it, letters in either case.
pub contains_iff : (p text : List ℕ) → (contains p text ≡ true) ↔ Occurs p text
contains_iff p text = (
  contains_sound p text,
  λ (before, mid, rest, e, m). rw (e, ← m) (contains_complete before mid rest),
)

-- The first entry whose test passes decides, and the fallback if none passes.
abbrev pub FirstMatch : List Pattern → List ℕ → FailureCode → FailureCode → Type 0
FirstMatch ps text fallback code =
    (All (λ p. p.test text ≡ false) ps × (code ≡ fallback))
    ⊎ ((before : List Pattern) × (p : Pattern) × (rest : List Pattern) × (ps ≡ before ++ (p ∷ rest))
        × All (λ q. q.test text ≡ false) before
        × (p.test text ≡ true)
        × (code ≡ p.code))

first_match_lem :
    (ps : List Pattern) (text : List ℕ) (fallback : FailureCode)
    → FirstMatch ps text fallback (first_match ps text fallback)
unfolding first_match
first_match_lem [] text fallback = inl (tt, refl)
first_match_lem (p ∷ ps) text fallback = elim (Bool-cases (p.test text)) [
  | inl hit ↦ inr ([], p, ps, refl, tt, hit, rw hit)
  | inr miss ↦ elim (first_match_lem ps text fallback) [
    | inl (none_passes, same) ↦ inl ((miss, none_passes), rw miss same)
    | inr (before, q, rest, e, earlier, hit, code) ↦ inr (
      p ∷ before,
      q,
      rest,
      ap (λ (t : List Pattern). p ∷ t) e,
      (miss, earlier),
      hit,
      rw miss code,
    )
  ]
]

classify_text-FirstMatch :
    (text : List ℕ) (fallback : FailureCode)
    → text ≢ []
    → FirstMatch patterns text fallback (classify_text text fallback)
unfolding classify_text
classify_text-FirstMatch [] fallback h = absurd (h refl)
classify_text-FirstMatch (c ∷ text) fallback h = first_match_lem patterns (c ∷ text) fallback

-- A failure whose text is not empty is classified by the first entry of the table whose test its
-- text passes, and by the fallback if no test passes.
pub classify_failure-FirstMatch :
    (e : Exception) (fallback : FailureCode)
    → describe e ≢ []
    → FirstMatch patterns (describe e) fallback (classify_failure e fallback)
unfolding classify_failure
classify_failure-FirstMatch e fallback h = classify_text-FirstMatch (describe e) fallback h

-- What our own hash pin throws, in lower case.
abbrev pub hash_pin : List ℕ
hash_pin = codes "does not match the generated transaction"

contains-nil : contains hash_pin [] ≡ false
unfolding contains begins
contains-nil = refl

classify_text-hash_pin :
    (text : List ℕ) (fallback : FailureCode)
    → contains hash_pin text ≡ true
    → classify_text text fallback ≡ FailureCode.signature_mismatch
unfolding classify_text first_match patterns contains_any
classify_text-hash_pin [] fallback h = cc contains-nil
classify_text-hash_pin (c ∷ text) fallback h = rw h

-- A failure whose text names the hash pin is a signature mismatch, whatever else the text says and
-- whatever the fallback is.
pub hash_pin_wins :
    (e : Exception) (fallback : FailureCode)
    → Occurs hash_pin (describe e)
    → classify_failure e fallback ≡ FailureCode.signature_mismatch
unfolding classify_failure
hash_pin_wins e fallback h =
    classify_text-hash_pin (describe e) fallback ((contains_iff hash_pin (describe e)).1 h)

abbrev pub has_expired_text : List ℕ
has_expired_text = codes "has expired"

has_expired-nil : contains has_expired_text [] ≡ false
unfolding contains begins
has_expired-nil = refl

classify_text-has_expired :
    (text : List ℕ) (fallback : FailureCode)
    → contains has_expired_text text ≡ true
    → (classify_text text fallback ≡ FailureCode.signature_mismatch)
      ⊎ (classify_text text fallback ≡ FailureCode.intent_expired)
unfolding classify_text first_match patterns contains_any
classify_text-has_expired [] fallback h = cc has_expired-nil
classify_text-has_expired (c ∷ text) fallback h = ground arith

-- A failure whose text says "has expired" is never classified as an expired quote, also where it
-- says "quote has expired": it is an expired intent, or a signature mismatch.
pub has_expired_never_quote :
    (e : Exception) (fallback : FailureCode)
    → Occurs has_expired_text (describe e)
    → (classify_failure e fallback ≡ FailureCode.signature_mismatch)
      ⊎ (classify_failure e fallback ≡ FailureCode.intent_expired)
unfolding classify_failure
has_expired_never_quote e fallback h =
    classify_text-has_expired (describe e) fallback
      ((contains_iff has_expired_text (describe e)).1 h)
