-- ===== src/FailureClassifier.antt =====
-- What a failure was, read from its text (src/defindex/failure-classifier.ts). A text is the list
-- of its code points; the regular expressions are alternatives of plain texts, one with a class
-- and a word boundary, all matched without regard to case.
pub mod Matching
use smartpig_backend.Common.{
  ℕ, ◌+◌, Bool, true, false, ◌&&◌, ◌||◌, not, Option, none, some, List, [], ◌∷◌, ◌++◌, String, ◌==◌,
  leb, if◌then◌else◌, codes, Exception,
}
use smartpig_backend.TransactionState.{FailureCode}

abbrev pub lower : ℕ → ℕ
lower c = if leb b'A' c && leb c b'Z' then c + 32 else c

-- The pattern stands at the head of the text, letters in either case. Patterns are in lower case.
unfoldable pub begins : List ℕ → List ℕ → Bool
begins [] text = true
begins (p ∷ ps) [] = false
begins (p ∷ ps) (c ∷ text) = p == lower c && begins ps text

-- `/pattern/i.test(text)` for a plain pattern.
unfoldable pub contains : List ℕ → List ℕ → Bool
unfolding begins
contains pattern [] = begins pattern []
contains pattern (c ∷ text) = begins pattern (c ∷ text) || contains pattern text

-- `\b` after a digit: the text ends, or a character that is no word character follows.
abbrev is_word : ℕ → Bool
is_word c = (leb b'0' c && leb c b'9') || (leb b'a' (lower c) && leb (lower c) b'z') || c == b'_'

abbrev at_boundary : List ℕ → Bool
at_boundary [] = true
at_boundary (c ∷ text) = not (is_word c)

abbrev begins_5xx : List ℕ → Bool
begins_5xx (a ∷ b ∷ c ∷ text) =
    a == b'5' && b == b'0' && leb b'0' c && leb c b'4' && at_boundary text
begins_5xx _ = false

-- `/50[0-4]\b/`
unfoldable pub contains_5xx : List ℕ → Bool
contains_5xx [] = false
contains_5xx (c ∷ text) = begins_5xx (c ∷ text) || contains_5xx text

unfoldable pub contains_any : List String → List ℕ → Bool
contains_any [] text = false
contains_any (p ∷ ps) text = contains (codes p) text || contains_any ps text

-- One entry of the table `PATTERNS`.
pub record Pattern : Type 0 where
  pub test : List ℕ → Bool
  pub code : FailureCode

-- In the order of the source: the first match wins.
unfoldable pub patterns : List Pattern
patterns =
    record {
      test = contains_any ("does not match the generated transaction" ∷ []);
      code = FailureCode.signature_mismatch;
    }
    ∷ record {
      test = contains_any ("must be signed by the user" ∷ "tx_bad_auth" ∷ "bad_auth" ∷ []);
      code = FailureCode.signature_mismatch;
    }
    ∷ record {
      test = contains_any ("has expired" ∷ "tx_too_late" ∷ "intent expired" ∷ []);
      code = FailureCode.intent_expired;
    }
    ∷ record {
      test = contains_any ("quote expired" ∷ "quote has expired" ∷ "quote_expired" ∷ []);
      code = FailureCode.quote_expired;
    }
    ∷ record {
      test =
          contains_any ("op_underfunded" ∷ "tx_insufficient_balance" ∷ "insufficient balance" ∷ []);
      code = FailureCode.insufficient_balance;
    }
    ∷ record {
      test =
          contains_any
            ("op_no_trust" ∷ "no_trustline" ∷ "trustline missing" ∷ "trustline is missing" ∷ []);
      code = FailureCode.no_trustline;
    }
    ∷ record {
      test = contains_any ("op_over_sendmax" ∷ "op_under_destmin" ∷ "slippage" ∷ []);
      code = FailureCode.slippage_exceeded;
    }
    ∷ record {
      test = contains_any (
          "etimedout" ∷ "econnreset" ∷ "econnrefused" ∷ "enotfound" ∷ "timeout" ∷ "socket hang up"
          ∷ []);
      code = FailureCode.upstream_unavailable;
    }
    ∷ record {
      test = λ text.
          contains_5xx text
          || contains_any ("bad gateway" ∷ "service unavailable" ∷ "gateway timeout" ∷ []) text;
      code = FailureCode.upstream_unavailable;
    }
    ∷ record {
      test = contains_any ("tx_" ∷ "op_" ∷ "error(storage" ∷ "hosterror" ∷ "simulat" ∷ []);
      code = FailureCode.chain_rejected;
    }
    ∷ []

-- `parts.join(' ')`
join : List (List ℕ) → List ℕ
join [] = []
join (p ∷ []) = p
join (p ∷ q ∷ rest) = p ++ (b' ' ∷ join (q ∷ rest))

abbrev part : Option String → List (List ℕ) → List (List ℕ)
part none rest = rest
part (some s) rest = codes s ∷ rest

-- `describe`, of the thrown objects that the handlers catch.
unfoldable pub describe : Exception → List ℕ
unfolding join
describe e = join (codes e.message ∷ part e.code (part e.status (part e.payload [])))

-- The loop over the table.
unfoldable pub first_match : List Pattern → List ℕ → FailureCode → FailureCode
first_match [] text fallback = fallback
first_match (p ∷ ps) text fallback = if p.test text then p.code else first_match ps text fallback

-- `if (!text) return fallback`
unfoldable pub classify_text : List ℕ → FailureCode → FailureCode
classify_text [] fallback = fallback
classify_text (c ∷ text) fallback = first_match patterns (c ∷ text) fallback

unfoldable pub classify_failure : Exception → FailureCode → FailureCode
classify_failure e fallback = classify_text (describe e) fallback
