-- ===== src/Sql/Gateway.antt =====
-- app/sql/gateway.py: admission tickets, the ledger of submissions and the execution of a query. The
-- clock, the fresh ids and DuckDB are parameters: `now`, `job_id` and the outcome of the query. A time
-- is a number of microseconds. The duration and the times that the ledger records are left out.
pub mod Spacing
pub mod Admission
pub mod Submissions
use text_to_sql_rag.Prelude.{
  ℕ, zero, suc, ◌+◌, ◌*◌, Bool, true, false, not, ◌&&◌, ◌||◌, Option, none, some, List, [], ◌∷◌,
  ◌++◌, Text, text, ◌==◌, list_eq, nat_eq, map, keys, lookup, insert, ltb, length, take, contains,
  if◌then◌else◌,
}
use text_to_sql_rag.Contracts.Errors.{
  Result, Failure, ok, err, fail, governed, admission_ticket_invalid, policy_epoch_changed,
  execution_failed, ◌>>=◌, ◌>>◌,
}
use text_to_sql_rag.Contracts.Scope.{TrustedScope}
use text_to_sql_rag.Contracts.Plan.{CompiledQuery}

abbrev pub default_max_rows : ℕ
default_max_rows = 10000

pub record AdmissionTicket : Type 0 where
  pub ticket_id : Text
  pub query_hash : Text
  pub plan_id : Text
  pub plan_revision : ℕ
  pub principal_id : Text
  pub tenant_id : Text
  pub policy_epoch : ℕ
  pub snapshot_id : Text
  pub expires_at : ℕ
  pub max_rows : ℕ

pub record QueryResult (V : Type 0) : Type 0 where
  pub columns : List Text
  pub rows : List (List V)
  pub row_count : ℕ
  pub truncated : Bool
  pub job_id : Text

pub record Entry : Type 0 where
  pub ticket_id : Text
  pub query_hash : Text
  pub state : Text

abbrev pub submitted : Text
submitted = text "submitted"

abbrev pub completed : Text
completed = text "completed"

abbrev pub failed : Text
failed = text "failed"

-- `self.entries`
abbrev pub Ledger : Type 0
Ledger = List (Text × Entry)

-- `open`, for the id that it draws.
unfoldable pub open_job : Ledger → Text → AdmissionTicket → Ledger
open_job ledger job_id ticket =
    insert job_id
      (record { ticket_id = ticket.ticket_id; query_hash = ticket.query_hash; state = submitted })
      ledger

-- The update of an entry that may be missing.
abbrev pub update : Ledger → Text → Text → Option Entry → Ledger
update ledger job_id state none = ledger
update ledger job_id state (some entry) = insert job_id (record entry { state = state }) ledger

unfoldable pub close_job : Ledger → Text → Text → Ledger
close_job ledger job_id state = update ledger job_id state (lookup job_id ledger)

unfoldable pub find_open : Ledger → Text → Option Text
find_open [] query_hash = none
find_open ((job_id, entry) ∷ ledger) query_hash =
    let rest = find_open ledger query_hash in
    if entry.query_hash == query_hash && entry.state == submitted then some job_id else rest

-- `str.split()` and `" ".join(...)`: `word` is what stands before, read backwards.
abbrev pub is_blank : ℕ → Bool
is_blank c =
    c == 32
    || (ltb 8 c && ltb c 14)
    || (ltb 27 c && ltb c 32)
    || c == 133
    || c == 160
    || c == 5760
    || (ltb 8191 c && ltb c 8203)
    || c == 8232
    || c == 8233
    || c == 8239
    || c == 8287
    || c == 12288

pub reversed : Text → Text → Text
reversed [] onto = onto
reversed (c ∷ s) onto = reversed s (c ∷ onto)

abbrev flush : Text → List Text → List Text
flush [] words = words
flush (c ∷ s) words = reversed (c ∷ s) [] ∷ words

unfoldable pub split_words : Text → Text → List Text
unfolding reversed
split_words word [] = flush word []
split_words word (c ∷ s) =
    let ends = split_words [] s in
    let goes = split_words (c ∷ word) s in if is_blank c then flush word ends else goes

unfoldable pub join_words : List Text → Text
join_words [] = []
join_words (w ∷ []) = w
join_words (w ∷ v ∷ ws) = w ++ 32 ∷ join_words (v ∷ ws)

-- What DuckDB answers: the names of the columns and the rows that were fetched, an exception of the query, or one of
-- `_connect`, before it.
pub data Outcome (V : Type 0) : Type 0 where
  fetched : (columns : List Text) (rows : List (List V)) → Outcome V
  crashed : Outcome V
  unconnected : Failure → Outcome V

-- `digest` is the hash of the JSON text of the SQL and the values, and `show_value` is `str`.
module _ {V : Type 0} (digest : Text → List Text → Text) (show_value : V → Text) where
  unfoldable pub canonical_hash : Text → List V → Text
  unfolding split_words join_words
  canonical_hash sql values = digest (join_words (split_words [] sql)) (map show_value values)

  -- With the default row limit, the time that the clock shows and the id that is drawn.
  unfoldable pub issue_ticket :
      CompiledQuery V → TrustedScope → (ttl now : ℕ) → (ticket_id : Text) → AdmissionTicket
  unfolding canonical_hash
  issue_ticket compiled scope ttl now ticket_id = record {
    ticket_id = ticket_id;
    query_hash = canonical_hash compiled.sql compiled.parameter_values;
    plan_id = compiled.plan_id;
    plan_revision = compiled.plan_revision;
    principal_id = scope.principal_id;
    tenant_id = scope.tenant_id;
    policy_epoch = scope.policy_epoch;
    snapshot_id = scope.snapshot_id;
    expires_at = now + ttl;
    max_rows = default_max_rows;
  }

  unfoldable pub verify :
      AdmissionTicket → CompiledQuery V → TrustedScope → (now : ℕ) → Result (Unit {0})
  unfolding canonical_hash
  verify ticket compiled scope now =
      if ltb ticket.expires_at now
      then fail governed admission_ticket_invalid none
      else if canonical_hash compiled.sql compiled.parameter_values == ticket.query_hash
      then if scope.policy_epoch == ticket.policy_epoch
        then if scope.principal_id == ticket.principal_id && scope.tenant_id == ticket.tenant_id
          then ok tt
          else fail governed admission_ticket_invalid none
        else fail governed policy_epoch_changed none
      else fail governed admission_ticket_invalid none

  -- The two checks before the submission.
  unfoldable pub admit :
      Ledger → CompiledQuery V → AdmissionTicket → TrustedScope → (now : ℕ) → Result (Unit {0})
  unfolding verify find_open
  admit ledger compiled ticket scope now = verify ticket compiled scope now >>= λ _.
      elim (find_open ledger ticket.query_hash) [
        | none ↦ ok tt
        | some existing ↦ fail governed execution_failed none
      ]

  -- The result of a query that ran: one row more than the cap was asked for.
  abbrev pub result_of : AdmissionTicket → Text → List Text → List (List V) → QueryResult V
  result_of ticket job_id columns rows = record {
    columns = columns;
    rows = take ticket.max_rows rows;
    row_count = length (take ticket.max_rows rows);
    truncated = ltb ticket.max_rows (length rows);
    job_id = job_id;
  }

  -- The code behind the submission. It closes the job on both ways out of the query, but an exception of `_connect`,
  -- which stands before the `try`, leaves the job open.
  unfoldable pub settle :
      Ledger → AdmissionTicket → Text → Outcome V → Ledger × Result (QueryResult V)
  unfolding close_job
  settle ledger ticket job_id (fetched columns rows) =
      (close_job ledger job_id completed, ok (result_of ticket job_id columns rows))
  settle ledger ticket job_id crashed =
      (close_job ledger job_id failed, fail governed execution_failed none)
  settle ledger ticket job_id (unconnected e) = (ledger, err e)

  -- The submission behind the checks. `run` is the query, asked for so many rows.
  unfoldable pub submit :
      Ledger
      → CompiledQuery V
      → AdmissionTicket
      → (job_id : Text) → (run : CompiledQuery V → ℕ → Outcome V) → Result (Unit {0})
      → Ledger × Result (QueryResult V)
  unfolding open_job settle
  submit ledger compiled ticket job_id run (err e) = (ledger, err e)
  submit ledger compiled ticket job_id run (ok _) =
      settle (open_job ledger job_id ticket) ticket job_id (run compiled (suc ticket.max_rows))

  unfoldable pub execute :
      Ledger
      → CompiledQuery V
      → AdmissionTicket
      → TrustedScope
      → (now : ℕ) → (job_id : Text) → (run : CompiledQuery V → ℕ → Outcome V)
      → Ledger × Result (QueryResult V)
  unfolding admit submit
  execute ledger compiled ticket scope now job_id run =
      submit ledger compiled ticket job_id run (admit ledger compiled ticket scope now)
