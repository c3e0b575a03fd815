-- ===== src/Worker/Failure.antt =====
-- src/opencortex/store/event/failure.py: what is retried.
use open_cortex.Base.{ℕ, String, Bool, true, false, if◌then◌else◌, ◌==◌, string_eq}

-- The classes that `classify_event_failure` tells apart. `timeout` is TimeoutError, which
-- asyncio.TimeoutError is another name of; pydantic's ValidationError is a `value`.
pub data ErrorClass : Type 0 where
  permanent transient timeout connection value other : ErrorClass

-- an exception: its class, the name of that class, and `str(exc)`
pub record PyError : Type 0 where
  pub class : ErrorClass
  pub class_name : String
  pub text : String

pub data Result {ℓ} (A : Type ℓ) : Type ℓ where
  ok : A → Result A
  err : PyError → Result A

pub record EventFailure : Type 0 where
  pub retry : Bool
  pub delay : ℕ
  pub message : String

abbrev pub or_text : String → String → String
or_text a b = if a == "" then b else a

abbrev second : ℕ
second = 1000000

classify : ErrorClass → String → EventFailure
classify permanent message = record { retry = false; delay = 0; message = message }
classify transient message = record { retry = true; delay = second; message = message }
classify timeout message = record { retry = true; delay = second; message = message }
classify connection message = record { retry = true; delay = second; message = message }
classify value message = record { retry = false; delay = 0; message = message }
classify other message = record { retry = true; delay = second; message = message }

unfoldable pub classify_event_failure : PyError → EventFailure
unfolding classify
classify_event_failure e = classify e.class (or_text e.text e.class_name)
