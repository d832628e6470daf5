-- ===== src/Common/Outcome.antt =====
-- Fallible code: what the services throw, and the monads that the handlers are written in.
use Prim.Native.String.{String}
use mathlib.Core.Bool.{Bool, true, false}
use mathlib.Core.Option.{Option, none, some}

-- The Nest exception classes that the services raise; `plain` is any other `Error`.
pub data ErrorKind : Type 0 where
  bad_request forbidden not_found conflict gone service_unavailable gateway_timeout plain :
      ErrorKind

-- A thrown value: its class, and the parts that the failure classifier reads. `payload` is the
-- JSON text of `response.data`, and is absent where that does not serialise.
pub record Exception : Type 0 where
  pub kind : ErrorKind
  pub message : String
  pub code : Option String
  pub status : Option String
  pub payload : Option String

-- `new XException(message)`; identifiers interpolated into a message are left out.
abbrev pub http : ErrorKind → String → Exception
http k m = record { kind = k; message = m; code = none; status = none; payload = none }

pub data Result (A : Type 0) : Type 0 where
  ok : A → Result A
  err : Exception → Result A

-- The call returns, and its answer has the property.
abbrev pub Returns : {A : Type 0} → Result A → (A → Type 0) → Type 0
Returns (ok a) P = P a
Returns (err e) P = ⊥

-- The call throws.
abbrev pub Fails : {A : Type 0} → Result A → Type 0
Fails (ok a) = ⊥
Fails (err e) = Unit

-- The row is there, and has the property.
abbrev pub Found {ℓ} : {A : Type ℓ} → Option A → (A → Type 0) → Type 0
Found none P = ⊥
Found (some a) P = P a

-- A handler: the tables and the caches come back after a throw too, since a write stays written.
abbrev pub Action : Type 0 → Type 0 → Type 0
Action W A = W → Result A × W

module _ {W A : Type 0} where
  abbrev pub pure : A → Action W A
  pure a w = (ok a, w)

  abbrev pub throw : Exception → Action W A
  throw e w = (err e, w)

  abbrev pub gets : (W → A) → Action W A
  gets f w = (ok (f w), w)

  -- The answer of a call that reads and writes no table.
  abbrev pub lift : Result A → Action W A
  lift r w = (r, w)

  abbrev pub or_throw : Option A → Exception → Action W A
  or_throw none e = throw e
  or_throw (some a) e = pure a

infixl 5 ◌>>=◌ ◌>>◌
abbrev pub ◌>>=◌ : {W A B : Type 0} → Action W A → (A → Action W B) → Action W B
◌>>=◌ m f w = let (r, w') = m w in elim r [ ok a ↦ f a w' | err e ↦ (err e, w') ]

abbrev pub ◌>>◌ : {W A B : Type 0} → Action W A → Action W B → Action W B
m >> k = m >>= λ _. k

module _ {W : Type 0} where
  abbrev pub modify : (W → W) → Action W (Unit {0})
  modify f w = (ok tt, f w)

  abbrev pub throw_if : Bool → Exception → Action W (Unit {0})
  throw_if true e = throw e
  throw_if false e = pure tt

-- `try { m } catch (err) { handler }`
abbrev pub catch : {W A : Type 0} → Action W A → (Exception → Action W A) → Action W A
catch m handler w = let (r, w') = m w in elim r [ ok a ↦ (ok a, w') | err e ↦ handler e w' ]

-- `$transaction`: a throw leaves no write behind.
abbrev pub atomic : {W A : Type 0} → Action W A → Action W A
atomic m w = let (r, w') = m w in elim r [ ok a ↦ (ok a, w') | err e ↦ (err e, w) ]
