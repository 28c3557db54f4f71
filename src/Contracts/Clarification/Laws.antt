-- ===== src/Contracts/Clarification/Laws.antt =====
-- Which answers are accepted.
use text_to_sql_rag.Prelude.{
  ℕ, zero, suc, ◌≡◌, true, some, List, [], ◌∷◌, Text, map, contains, list_eq, nat_eq, arith,
  isdigit, int_from, strip, lower, ==_refl,
}
use text_to_sql_rag.Contracts.Errors.{ok, >>=-eq-ok}
use text_to_sql_rag.Contracts.Clarification.{
  ClarificationOption, ClarificationRequest, ClarificationAnswer, Payload, bare, option_at,
  match_index, match_freeform, read_payload, check_offered, validate_answer,
}

module _ (request : ClarificationRequest) where
  abbrev pub offered : List Text
  offered = map (λ o. o.value) request.options

  -- Whatever the payload, an accepted answer addresses the slot that was asked about and holds a
  -- value that was offered.
  pub validate_answer-offered :
      (payload : Payload) (a : ClarificationAnswer)
      → validate_answer request payload ≡ ok a
      → (a.slot ≡ request.slot) × (contains a.value offered ≡ true)
  unfolding validate_answer check_offered
  validate_answer-offered payload a h =
      let (b, _, checked) = >>=-eq-ok (read_payload request payload) _ h in ground arith

  contains-option_at :
      (os : List ClarificationOption) (i : ℕ) (o : ClarificationOption)
      → option_at os i ≡ some o
      → contains o.value (map (λ p. p.value) os) ≡ true
  unfolding option_at
  contains-option_at [] i o h = cc
  contains-option_at (p ∷ os) zero o h = ground (arith, ==_refl o.value)
  contains-option_at (p ∷ os) (suc i) o h = ground (arith, contains-option_at os i o h)

  -- A number that counts an option from 1 is accepted as that option, with white space around it.
  pub validate_answer_index :
      (s : Text) (i : ℕ) (o : ClarificationOption)
      → isdigit (lower (strip s)) ≡ true
      → int_from 0 (lower (strip s)) ≡ suc i
      → option_at request.options i ≡ some o
      → validate_answer request (bare s) ≡ ok (record { slot = request.slot; value = o.value })
  unfolding validate_answer read_payload match_freeform match_index check_offered
  validate_answer_index s i o digits number found =
      rw (digits, number, match_index, found)
        (ground (arith, contains-option_at request.options i o found, ==_refl request.slot))
