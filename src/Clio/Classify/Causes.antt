-- ===== src/Clio/Classify/Causes.antt =====
-- How classify.ts reads nested errors, and that every load signal has a code to report.
use xrpl_registrar.Common.{
  ◌≡◌, refl, ap, ◌∙◌, inl, inr, Bool, true, false, not, ◌&&◌, ◌||◌, Option, none, some, List, [],
  ◌∷◌, arith, Bool-cases,
}
use xrpl_registrar.Common.Text.{eq}
use xrpl_registrar.Json.{
  or_other, and_then, get_string, Value, Fields, Record, get, string, object, number, end, field,
}
use xrpl_registrar.Clio.Classify.{
  Code, ErrorClassification, data_error, listed, as_number, connection_error_names,
  connection_error_codes, by_message, by_cause, by_system_code, by_name, by_status, classify_record,
  classify_error, classify_cause,
}

abbrev pub is_absent {ℓ} : {A : Type ℓ} → Option A → Bool
is_absent none = true
is_absent (some x) = false

-- An error that says nothing of its own but by its message: it has no slug, no HTTP status, and
-- neither the name nor the system code of a failed connection.
unfoldable pub carries_nothing : Record → Bool
carries_nothing r =
    is_absent (or_other (data_error r) (get_string "error" r))
    && is_absent (and_then (get "httpStatus" r) as_number)
    && is_absent (listed connection_error_names (get_string "name" r))
    && is_absent (listed connection_error_codes (get_string "code" r))

-- An error at the bottom of a chain of causes, below such errors.
abbrev pub IsBuried : Value → List Record → Value → Type 0
IsBuried e [] v = v ≡ e
IsBuried e (r ∷ rs) v =
    (v ≡ object r)
    × (carries_nothing r ≡ true)
    × (inner : Value) × (get "cause" r ≡ some inner)
    × IsBuried e rs inner

classify_cause-get :
    (fs : Fields) (inner : Value)
    → get "cause" fs ≡ some inner
    → classify_cause fs ≡ some (classify_error inner)
unfolding classify_cause get
classify_cause-get end inner h = absurd (ground (arith, h))
classify_cause-get (field k v fs) inner h = elim (Bool-cases (eq k "cause")) [
  | inl e ↦
      let here : some v ≡ some inner = ground (arith, h, e) in
      rw e (ap (λ o. and_then o (λ x. some (classify_error x))) here)
  | inr e ↦ rw e (classify_cause-get fs inner (ground (arith, h, e)))
]

classify_error-object :
    (r : Record) → classify_error (object r) ≡ classify_record (classify_cause r) r
unfolding classify_error
classify_error-object r = refl

classify_record-inner :
    (c : ErrorClassification) (r : Record)
    → carries_nothing r ≡ true
    → c.retryable ≡ true
    → classify_record (some c) r ≡ c
unfolding carries_nothing classify_record by_status by_name by_system_code by_cause
classify_record-inner c r h k = ground (arith, h, k)

-- However deep a load signal is buried in a chain of causes, the whole is classified as it is, with
-- its own code, where the errors above it have no slug, no numeric HTTP status, and neither the name
-- nor the system code of a failed connection, whatever their messages say.
pub classify_error-wrapped :
    (e : Value) (wrappers : List Record) (v : Value)
    → (classify_error e).retryable ≡ true
    → IsBuried e wrappers v
    → classify_error v ≡ classify_error e
classify_error-wrapped e [] v h b = ap classify_error b
classify_error-wrapped e (r ∷ rs) v h (same, nothing, inner, cause, below) =
    let ih = classify_error-wrapped e rs inner h below in
    let loaded : (classify_error inner).retryable ≡ true = rw ih h in
    ap classify_error same
    ∙ classify_error-object r
    ∙ ap (λ c. classify_record c r) (classify_cause-get r inner cause)
    ∙ classify_record-inner (classify_error inner) r nothing loaded
    ∙ ih

abbrev pub is_some : Option Code → Bool
is_some none = false
is_some (some c) = true

-- A load signal has a code.
abbrev pub coded : ErrorClassification → Bool
coded c = not c.retryable || is_some c.code

abbrev all_coded : Option ErrorClassification → Bool
all_coded none = true
all_coded (some c) = coded c

by_message-coded : (r : Record) → coded (by_message r) ≡ true
unfolding by_message
by_message-coded r = ground arith

by_cause-coded :
    (inner : Option ErrorClassification) (r : Record)
    → all_coded inner ≡ true
    → coded (by_cause inner r) ≡ true
unfolding by_cause
by_cause-coded none r h = by_message-coded r
by_cause-coded (some c) r h = ground (arith, by_message-coded r)

classify_record-coded :
    (inner : Option ErrorClassification) (r : Record)
    → all_coded inner ≡ true
    → coded (classify_record inner r) ≡ true
unfolding classify_record by_status by_name by_system_code
classify_record-coded inner r h = ground (arith, by_cause-coded inner r h)

mutual
  unfolding classify_error classify_cause

  error_coded : (v : Value) → coded (classify_error v) ≡ true
  error_coded (object fs) = classify_record-coded (classify_cause fs) fs (cause_coded fs)
  error_coded Value.null = refl
  error_coded (Value.boolean b) = refl
  error_coded (number n) = refl
  error_coded (string s) = refl
  error_coded (Value.array vs) = refl

  cause_coded : (fs : Fields) → all_coded (classify_cause fs) ≡ true
  cause_coded end = refl
  cause_coded (field k v fs) = ground (arith, error_coded v, cause_coded fs)

-- Whatever is thrown, an error that is read as a load signal comes with a code, so that a retry
-- never hides what it was retried for.
pub classify_error-coded : (v : Value) → coded (classify_error v) ≡ true
classify_error-coded v = error_coded v
