-- ===== src/Contracts/Coverage.antt =====
-- app/contracts/coverage.py: the requirement coverage matrix.
use text_to_sql_rag.Prelude.{Bool, true, false, Option, List, [], ◌∷◌, ◌++◌, Text, select, all_of}

pub data CoverageState : Type 0 where
  resolved approved_default unresolved ambiguous unauthorized : CoverageState

-- The evidence reference and the note are prose and are left out.
pub record ConceptCoverage : Type 0 where
  pub concept : Text
  pub kind : Text
  pub state : CoverageState
  pub resolved_ref : Option Text
  pub alternatives : List Text

pub record CoverageMatrix : Type 0 where
  pub entries : List ConceptCoverage

abbrev pub is_settled : CoverageState → Bool
is_settled resolved = true
is_settled approved_default = true
is_settled _ = false

abbrev is_unresolved : CoverageState → Bool
is_unresolved unresolved = true
is_unresolved _ = false

abbrev is_ambiguous : CoverageState → Bool
is_ambiguous ambiguous = true
is_ambiguous _ = false

unfoldable pub is_complete : CoverageMatrix → Bool
is_complete m = all_of (λ e. is_settled e.state) m.entries

unfoldable pub unresolved_entries : CoverageMatrix → List ConceptCoverage
unresolved_entries m = select (λ e. is_unresolved e.state) m.entries

unfoldable pub ambiguous_entries : CoverageMatrix → List ConceptCoverage
ambiguous_entries m = select (λ e. is_ambiguous e.state) m.entries

unfoldable pub with_entry : CoverageMatrix → ConceptCoverage → CoverageMatrix
with_entry m entry = record { entries = m.entries ++ entry ∷ [] }
