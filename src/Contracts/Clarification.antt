-- ===== src/Contracts/Clarification.antt =====
-- app/contracts/clarification.py: a question with its options, and the check of the answer.
-- The wording and the reason of a question and the effect of an option are prose; `to_text` only prints.
pub mod Laws
use text_to_sql_rag.Prelude.{
  ℕ, zero, suc, ◌-◌, Bool, true, false, ◌&&◌, ◌||◌, Option, none, some, List, [], ◌∷◌, Text, text,
  map, contains, ◌==◌, list_eq, nat_eq, subset, keys, lookup, strip, lower, isdigit, int_from,
  length, if◌then◌else◌,
}
use text_to_sql_rag.Contracts.Errors.{
  Result, ok, err, fail, governed, material_ambiguity, not_authorized, ◌>>=◌, ◌>>◌,
}

pub record ClarificationOption : Type 0 where
  pub value : Text
  pub label : Text

pub record ClarificationRequest : Type 0 where
  pub slot : Text
  pub options : List ClarificationOption

pub record ClarificationAnswer : Type 0 where
  pub slot : Text
  pub value : Text

-- What arrives at a resume: an answer object, a dict (a value that is no text is none), a bare
-- text, or anything else.
pub data Payload : Type 0 where
  answer : ClarificationAnswer → Payload
  dict : List (Text × Option Text) → Payload
  bare : Text → Payload
  other : Payload

unfoldable pub option_at : List ClarificationOption → ℕ → Option ClarificationOption
option_at [] i = none
option_at (o ∷ os) zero = some o
option_at (o ∷ os) (suc i) = option_at os i

module _ (request : ClarificationRequest) where
  -- The error that a payload which cannot be understood raises.
  abbrev not_understood : Result ClarificationAnswer
  not_understood = fail governed material_ambiguity none

  abbrev choose : ClarificationOption → Result ClarificationAnswer
  choose o = ok (record { slot = request.slot; value = o.value })

  -- The first option whose value or label is the needle.
  unfoldable pub match_option : Text → List ClarificationOption → Result ClarificationAnswer
  match_option needle [] = not_understood
  match_option needle (o ∷ os) =
      let rest = match_option needle os in
      if needle == lower o.value || needle == lower o.label then choose o else rest

  -- A number counts from 1. Zero and a number past the end are matched like any text.
  unfoldable pub match_index : Text → ℕ → Result ClarificationAnswer
  unfolding match_option option_at
  match_index needle zero = match_option needle request.options
  match_index needle (suc i) = elim (option_at request.options i) [
    | some o ↦ choose o
    | none ↦ match_option needle request.options
  ]

  unfoldable pub match_freeform : Text → Result ClarificationAnswer
  unfolding match_index match_option
  match_freeform s =
      let needle = lower (strip s) in
      if isdigit needle
      then match_index needle (int_from 0 needle)
      else match_option needle request.options

  -- `ClarificationAnswer.model_validate`: both fields, both texts, and nothing else.
  unfoldable pub model_validate : List (Text × Option Text) → Result ClarificationAnswer
  model_validate fields =
      if subset (keys fields) (text "slot" ∷ text "value" ∷ [])
      then elim (lookup (text "slot") fields) [
        | some (some s) ↦ elim (lookup (text "value") fields) [
          | some (some v) ↦ ok (record { slot = s; value = v })
          | _ ↦ not_understood
        ]
        | _ ↦ not_understood
      ]
      else not_understood

  unfoldable pub read_payload : Payload → Result ClarificationAnswer
  unfolding match_freeform model_validate
  read_payload (answer a) = ok a
  read_payload (dict fields) = model_validate fields
  read_payload (bare s) = match_freeform s
  read_payload other = not_understood

  -- The two checks behind the reading of the payload.
  unfoldable pub check_offered : ClarificationAnswer → Result ClarificationAnswer
  check_offered a =
      if a.slot == request.slot
      then if contains a.value (map (λ o. o.value) request.options)
        then ok a
        else fail governed not_authorized (some a.value)
      else fail governed material_ambiguity none

  unfoldable pub validate_answer : Payload → Result ClarificationAnswer
  unfolding read_payload check_offered
  validate_answer payload = do a ← read_payload payload; check_offered a
