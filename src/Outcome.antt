-- ===== src/Outcome.antt =====
-- Exceptions as values, and methods that change an object and may raise.
use wotpy.Prelude.{String, Bool, true, false, Option, none, some, List, [], ◌∷◌}

-- The exception classes that the source raises or catches, each with its message. `user_error` is
-- what an application's handler or a library raises.
pub data Error : Type 0 where
  value_error key_error type_error attribute_error index_error : String → Error
  assertion_error not_implemented servient_state protocol_client user_error : String → Error
  form_not_found client_timeout : Error

-- `str(ex)`
abbrev pub message_of : Error → String
message_of (value_error s) = s
message_of (key_error s) = s
message_of (type_error s) = s
message_of (attribute_error s) = s
message_of (index_error s) = s
message_of (assertion_error s) = s
message_of (not_implemented s) = s
message_of (servient_state s) = s
message_of form_not_found = "Protocol Form not found in TD"
message_of client_timeout = "Timeout in protocol client request"
message_of (protocol_client s) = s
message_of (user_error s) = s

pub data Outcome {ℓ} (A : Type ℓ) : Type ℓ where
  ok : A → Outcome A
  raised : Error → Outcome A

abbrev pub is_ok {ℓ} : {A : Type ℓ} → Outcome A → Bool
is_ok (ok a) = true
is_ok (raised e) = false

-- What was written before an exception stays written.
abbrev pub Exec {ℓ κ} : Type ℓ → Type κ → Type (ℓ ⊔ κ)
Exec S A = S → Outcome A × S

module _ {ℓ κ} {S : Type ℓ} {A : Type κ} where
  abbrev pub pure : A → Exec S A
  pure a s = (ok a, s)

  abbrev pub throw : Error → Exec S A
  throw e s = (raised e, s)

  abbrev pub lift : Outcome A → Exec S A
  lift r s = (r, s)

  -- `x = xs.get(k)` followed by `if x is None: raise e`
  abbrev pub from_option : Error → Option A → Exec S A
  from_option e none = throw e
  from_option e (some a) = pure a

abbrev pub gets {ℓ κ} : {S : Type ℓ} {A : Type κ} → (S → A) → Exec S A
gets f s = (ok (f s), s)

abbrev pub modify {ℓ} : {S : Type ℓ} → (S → S) → Exec S (Unit {0})
modify f s = (ok tt, f s)

module _ {ℓ κ μ} {S : Type ℓ} {A : Type κ} {B : Type μ} where
  abbrev pub go_on : Outcome A → (A → Exec S B) → Exec S B
  go_on (ok a) f s = f a s
  go_on (raised e) f s = (raised e, s)

  infixl 5 ◌>>=◌ ◌>>◌
  abbrev pub ◌>>=◌ : Exec S A → (A → Exec S B) → Exec S B
  ◌>>=◌ m f s = let (r, s') = m s in go_on r f s'

  abbrev pub ◌>>◌ : Exec S A → Exec S B → Exec S B
  m >> n = m >>= λ _. n

-- `for x in xs: body(x)`
abbrev pub for_each {ℓ κ} :
    {S : Type ℓ} {A : Type κ} → (A → Exec S (Unit {0})) → List A → Exec S (Unit {0})
for_each body [] = pure tt
for_each body (x ∷ xs) = body x >> for_each body xs
