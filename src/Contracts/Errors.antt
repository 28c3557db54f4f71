-- ===== src/Contracts/Errors.antt =====
-- app/contracts/errors.py: reason codes, findings and the exceptions that carry them. The message
-- of a finding is prose for people and is left out; `evidence_ref` is never set by the program.
use text_to_sql_rag.Prelude.{
  ◌≡◌, refl, ap, subst, Bool, true, false, if◌then◌else◌, Option, none, some, Text, Eq,
}

pub data ReasonCode : Type 0 where
  policy_unrepresentable snapshot_not_ready partial_retrieval timeout : ReasonCode
  unsupported_capability provider_unavailable : ReasonCode
  not_authorized discovery_denied policy_epoch_changed : ReasonCode
  object_not_found snapshot_drift stale_snapshot : ReasonCode
  metric_not_found rule_conflict rule_closure_not_converged mandatory_rule_unresolved : ReasonCode
  no_approved_path ambiguous_path prohibited_path grain_unproven fan_out_unproven : ReasonCode
  unresolved_reference unsupported_operator coverage_incomplete material_ambiguity : ReasonCode
  compiler_defect : ReasonCode
  validation_failed unsafe_query cost_exceeded : ReasonCode
  admission_ticket_invalid execution_failed result_contract_breach : ReasonCode
  budget_exhausted deadline_exceeded : ReasonCode

pub data Severity : Type 0 where
  block warn info : Severity

pub record Finding : Type 0 where
  pub code : ReasonCode
  pub severity : Severity
  pub subject : Option Text

-- The subclasses of `GovernedError`, and the base class itself.
pub data ErrorClass : Type 0 where
  governed authorization catalog retrieval compilation validation : ErrorClass

-- `value_error`, `key_error` and `index_error` are Python's own, which no `except GovernedError` catches.
-- `out_of_fuel` is the model's own: a loop that was given too few rounds.
pub data Failure : Type 0 where
  raised : ErrorClass → Finding → Failure
  value_error key_error index_error out_of_fuel : Failure

ReasonCode-discrete : Discrete ReasonCode
ReasonCode-discrete = hlevel

Severity-discrete : Discrete Severity
Severity-discrete = hlevel

instance unfoldable pub reason_code_eq : Eq ReasonCode
unfolding ReasonCode-discrete
reason_code_eq = record { dec = ReasonCode-discrete }

instance unfoldable pub severity_eq : Eq Severity
unfolding Severity-discrete
severity_eq = record { dec = Severity-discrete }

pub data Result {ℓ} (A : Type ℓ) : Type ℓ where
  err : (failure : Failure) → Result A
  ok : (value : A) → Result A

infixl 5 ◌>>=◌ ◌>>◌
abbrev pub ◌>>=◌ {ℓ κ} : {A : Type ℓ} {B : Type κ} → Result A → (A → Result B) → Result B
ok a >>= f = f a
err e >>= f = err e

abbrev pub ◌>>◌ {ℓ κ} : {A : Type ℓ} {B : Type κ} → Result A → Result B → Result B
m >> k = m >>= λ _. k

-- `GovernedError(code, message, subject)`: the finding keeps the default severity, block.
abbrev pub finding_of : ReasonCode → Option Text → Finding
finding_of code subject = record { code = code; severity = block; subject = subject }

abbrev pub fail {ℓ} : {A : Type ℓ} → ErrorClass → ReasonCode → Option Text → Result A
fail class code subject = err (raised class (finding_of code subject))

-- Inversion of a bind that succeeds, for proofs where the parts stay shut.
pub >>=-eq-ok {ℓ κ} :
    {X : Type ℓ} {Y : Type κ} (first : Result X) (next : X → Result Y) {y : Y}
    (done : (first >>= next) ≡ ok y)
    → (x : X) × (first ≡ ok x) × (next x ≡ ok y)
>>=-eq-ok (ok x) next done = (x, refl, done)
>>=-eq-ok (err failure) next done = cc

-- The code that a failure carries.
abbrev pub code_of : Failure → Option ReasonCode
code_of (raised class finding) = some finding.code
code_of value_error = none
code_of key_error = none
code_of index_error = none
code_of out_of_fuel = none

-- If it fails, it fails with this code.
abbrev pub FailsWith {ℓ} : {A : Type ℓ} → ReasonCode → Result A → Type 0
FailsWith code (ok a) = Unit
FailsWith code (err e) = code_of e ≡ some code

pub >>=-FailsWith {ℓ κ} :
    {A : Type ℓ} {B : Type κ} (code : ReasonCode) (m : Result A) (f : A → Result B)
    → FailsWith code m
    → ((a : A) → FailsWith code (f a))
    → FailsWith code (m >>= f)
>>=-FailsWith code (ok a) f h k = k a
>>=-FailsWith code (err e) f h k = h

pub FailsWith-err {ℓ} :
    {A : Type ℓ} (code : ReasonCode) (m : Result A) (e : Failure)
    → FailsWith code m
    → m ≡ err e
    → code_of e ≡ some code
FailsWith-err code (ok a) e h p = cc
FailsWith-err code (err d) e h p = cc

pub FailsWith-intro {ℓ} :
    {A : Type ℓ} (code : ReasonCode) (m : Result A)
    → ((e : Failure) → m ≡ err e → code_of e ≡ some code)
    → FailsWith code m
FailsWith-intro code (ok a) h = tt
FailsWith-intro code (err e) h = h e refl

pub if-FailsWith {ℓ} :
    {A : Type ℓ} (code : ReasonCode) (b : Bool) (m n : Result A)
    → FailsWith code m
    → FailsWith code n
    → FailsWith code (if b then m else n)
if-FailsWith code true m n h k = h
if-FailsWith code false m n h k = k

pub ok-injective {ℓ} : {A : Type ℓ} {a b : A} → ok a ≡ ok b → a ≡ b
ok-injective {a} h = ap (λ m. elim m [ ok x ↦ x | err e ↦ a ]) h

-- The rule for a bind whose second part needs what the first returned.
pub >>=-FailsWith_of_ok {ℓ κ} :
    {A : Type ℓ} {B : Type κ} (code : ReasonCode) (m : Result A) (f : A → Result B)
    → FailsWith code m
    → ((a : A) → m ≡ ok a → FailsWith code (f a))
    → FailsWith code (m >>= f)
>>=-FailsWith_of_ok code (ok a) f h k = k a refl
>>=-FailsWith_of_ok code (err e) f h k = h

-- What holds of the value, if there is one.
abbrev pub Ensures {ℓ κ} : {A : Type ℓ} → (A → Type κ) → Result A → Type κ
Ensures P (ok a) = P a
Ensures P (err e) = Unit

module _ {ℓ κ} {A : Type ℓ} (P : A → Type κ) where
  pub if-Ensures :
      (b : Bool) (m n : Result A)
      → (b ≡ true → Ensures P m)
      → (b ≡ false → Ensures P n)
      → Ensures P (if b then m else n)
  if-Ensures true m n h k = h refl
  if-Ensures false m n h k = k refl

  pub >>=-Ensures {μ} :
      {B : Type μ} (m : Result B) (f : B → Result A)
      → ((b : B) → m ≡ ok b → Ensures P (f b))
      → Ensures P (m >>= f)
  >>=-Ensures (ok b) f h = h b refl
  >>=-Ensures (err e) f h = tt

  pub Ensures-ok : (m : Result A) {a : A} → Ensures P m → m ≡ ok a → P a
  Ensures-ok (ok b) h e = subst P (ok-injective e) h
  Ensures-ok (err d) h e = cc

  pub Ensures-intro : (m : Result A) → ((a : A) → m ≡ ok a → P a) → Ensures P m
  Ensures-intro (ok a) h = h a refl
  Ensures-intro (err e) h = tt

pub Ensures-map {ℓ κ μ} :
    {A : Type ℓ} (P : A → Type κ) (Q : A → Type μ) (f : (a : A) → P a → Q a) (m : Result A)
    → Ensures P m
    → Ensures Q m
Ensures-map P Q f (ok a) h = f a h
Ensures-map P Q f (err e) h = tt
