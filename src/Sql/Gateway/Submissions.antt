-- ===== src/Sql/Gateway/Submissions.antt =====
-- The ledger as a state machine: submissions begin and end in any order.
use text_to_sql_rag.Prelude.{
  ℕ, zero, suc, ◌≤◌, ◌≡◌, ◌≢◌, refl, ap, ◌∙◌, sym, subst, ◌⊎◌, inl, inr, false, Option, none, some,
  List, [], ◌∷◌, arith, Text, ◌==◌, ==_refl, eq_of_==, list_eq, nat_eq, lookup, lookup-insert,
  Bool-cases, if◌then◌else◌, length, take,
}
use mathlib.Core.Option.{none-ne-some, some-injective}
use mathlib.Core.Bool.{true≢false}
use text_to_sql_rag.Contracts.Errors.{Result, ok, err, >>=-eq-ok, ok-injective}
use text_to_sql_rag.Contracts.Scope.{TrustedScope}
use text_to_sql_rag.Contracts.Plan.{CompiledQuery}
use text_to_sql_rag.Sql.Gateway.{
  AdmissionTicket, verify, admit, Ledger, Entry, find_open, open_job, close_job, submitted,
  completed, failed, Outcome, fetched, crashed, unconnected, settle, submit, execute, update,
  QueryResult,
}
use text_to_sql_rag.Sql.Gateway.Admission.{IsAdmitted, verify_lem}

-- The job runs the query with this hash and has not ended.
pub record IsOpen (ledger : Ledger) (job_id query_hash : Text) : Type 0 where
  pub entry : Entry
  pub recorded : lookup job_id ledger ≡ some entry
  pub same_hash : entry.query_hash ≡ query_hash
  pub running : entry.state ≡ submitted

find_open-none :
    (ledger : Ledger) (query_hash job_id : Text) (e : Entry)
    → find_open ledger query_hash ≡ none
    → lookup job_id ledger ≡ some e
    → e.query_hash ≡ query_hash
    → e.state ≡ submitted
    → ⊥
unfolding find_open lookup
find_open-none [] query_hash job_id e h l s r = cc
find_open-none ((i, entry) ∷ ledger) query_hash job_id e h l s r =
    ground (arith, find_open-none ledger query_hash job_id e)

lookup-open_job :
    (ledger : Ledger) (job_id j : Text) (ticket : AdmissionTicket)
    → lookup j (open_job ledger job_id ticket) ≡ (
        if j == job_id
        then some (record {
          ticket_id = ticket.ticket_id;
          query_hash = ticket.query_hash;
          state = submitted;
        })
        else lookup j ledger)
unfolding open_job
lookup-open_job ledger job_id j ticket = lookup-insert j job_id _ ledger

-- A job that is open after a job ended was open before, and is another one.
update-IsOpen :
    (ledger : Ledger) (job_id state j query_hash : Text) (o : Option Entry)
    → lookup job_id ledger ≡ o
    → state ≢ submitted
    → IsOpen (update ledger job_id state o) j query_hash
    → IsOpen ledger j query_hash × (j ≢ job_id)
update-IsOpen ledger job_id state j query_hash none e ends o =
    (o, λ same. none-ne-some o.entry (sym e ∙ ap (λ k. lookup k ledger) (sym same) ∙ o.recorded))
update-IsOpen ledger job_id state j query_hash (some entry) e ends o =
    let recorded =
      sym (lookup-insert j job_id (record entry { state = state }) ledger) ∙ o.recorded in
    elim (Bool-cases (j == job_id)) [
      | inl same ↦
          let now = rw same at recorded in
          absurd (ends (ap (λ x. x.state) (some-injective _ _ now) ∙ o.running))
      | inr other ↦
          let before = rw other at recorded in
          (
            record {
              entry = o.entry;
              recorded = before;
              same_hash = o.same_hash;
              running = o.running;
            },
            λ same. true≢false (sym (==_refl job_id) ∙ ap (λ k. k == job_id) (sym same) ∙ other),
          )
    ]

close_job-IsOpen :
    (ledger : Ledger) (job_id state j query_hash : Text)
    → state ≢ submitted
    → IsOpen (close_job ledger job_id state) j query_hash
    → IsOpen ledger j query_hash × (j ≢ job_id)
unfolding close_job
close_job-IsOpen ledger job_id state j query_hash ends o =
    update-IsOpen ledger job_id state j query_hash (lookup job_id ledger) refl ends o

-- A job that is open after a submission is the new one or was open before.
open_job-IsOpen :
    (ledger : Ledger) (job_id j query_hash : Text) (ticket : AdmissionTicket)
    → IsOpen (open_job ledger job_id ticket) j query_hash
    → ((j ≡ job_id) × (query_hash ≡ ticket.query_hash)) ⊎ IsOpen ledger j query_hash
open_job-IsOpen ledger job_id j query_hash ticket o =
    let recorded = sym (lookup-open_job ledger job_id j ticket) ∙ o.recorded in
    elim (Bool-cases (j == job_id)) [
      | inl same ↦
          let now = rw same at recorded in
          inl (
            eq_of_== j job_id same,
            sym o.same_hash ∙ sym (ap (λ x. x.query_hash) (some-injective _ _ now)),
          )
      | inr other ↦
          let before = rw other at recorded in
          inr (record {
            entry = o.entry;
            recorded = before;
            same_hash = o.same_hash;
            running = o.running;
          })
    ]

-- No two open jobs run the same query.
abbrev pub IsExclusive : Ledger → Type 0
IsExclusive ledger =
    (i j query_hash : Text) → IsOpen ledger i query_hash → IsOpen ledger j query_hash → i ≡ j

pub data Ending : Type 0 where
  completes fails : Ending

abbrev pub state_at : Ending → Text
state_at completes = completed
state_at fails = failed

state_at-ends : (e : Ending) → state_at e ≢ submitted
unfolding list_eq nat_eq
state_at-ends completes h = absurd (true≢false (ap (λ s. s == completed) h))
state_at-ends fails h = absurd (true≢false (ap (λ s. s == failed) h))

length-take-le : {V : Type 0} (n : ℕ) (xs : List V) → length (take n xs) ≤ n
length-take-le zero xs = omega arith
length-take-le (suc n) [] = omega arith
length-take-le (suc n) (x ∷ xs) = omega (arith, length-take-le n xs)

take_all : {V : Type 0} (n : ℕ) (xs : List V) → length xs ≤ n → take n xs ≡ xs
take_all zero [] h = refl
take_all zero (x ∷ xs) h = absurd (omega (arith, h))
take_all (suc n) [] h = refl
take_all (suc n) (x ∷ xs) h = ap (λ r. x ∷ r) (take_all n xs (omega arith))

module _ {V : Type 0} (digest : Text → List Text → Text) (show_value : V → Text) where
  -- A submission begins behind the two checks, and ends; others may begin and end in between.
  pub data Step (ledger : Ledger) : Ledger → Type 0 where
    begins :
        (compiled : CompiledQuery V) (ticket : AdmissionTicket) (scope : TrustedScope) (now : ℕ)
        (job_id : Text)
        → admit digest show_value ledger compiled ticket scope now ≡ ok tt
        → Step ledger (open_job ledger job_id ticket)
    ends :
        (job_id : Text) (ending : Ending) → Step ledger (close_job ledger job_id (state_at ending))

  -- The ledgers that a gateway can come to.
  pub data Reachable : Ledger → Type 0 where
    fresh : Reachable []
    after : {ledger ledger' : Ledger} → Reachable ledger → Step ledger ledger' → Reachable ledger'

  -- What the checks of a submission found.
  admit_inv :
      (ledger : Ledger) (compiled : CompiledQuery V) (ticket : AdmissionTicket)
      (scope : TrustedScope) (now : ℕ)
      → admit digest show_value ledger compiled ticket scope now ≡ ok tt
      → IsAdmitted digest show_value ticket compiled scope now
        × (find_open ledger ticket.query_hash ≡ none)
  unfolding admit
  admit_inv ledger compiled ticket scope now h =
      let (_, verified, rest) =
        >>=-eq-ok (verify digest show_value ticket compiled scope now) _ h in
      ((verify_lem digest show_value ticket compiled scope now).0 verified, ground (arith, rest))

  none_open :
      (ledger : Ledger) (query_hash j : Text)
      → find_open ledger query_hash ≡ none
      → IsOpen ledger j query_hash
      → ⊥
  none_open ledger query_hash j h o =
      find_open-none ledger query_hash j o.entry h o.recorded o.same_hash o.running

  Step-IsExclusive :
      (ledger ledger' : Ledger) → Step ledger ledger' → IsExclusive ledger → IsExclusive ledger'
  Step-IsExclusive ledger _ (begins compiled ticket scope now job_id admitted) x i j query_hash a
        b =
      let (_, no_open) = admit_inv ledger compiled ticket scope now admitted in
      elim (open_job-IsOpen ledger job_id i query_hash ticket a) [
        | inl (i_new, hash) ↦ elim (open_job-IsOpen ledger job_id j query_hash ticket b) [
          | inl (j_new, _) ↦ i_new ∙ sym j_new
          | inr j_old ↦
              absurd
                (none_open ledger ticket.query_hash j no_open (subst (IsOpen ledger j) hash j_old))
        ]
        | inr i_old ↦ elim (open_job-IsOpen ledger job_id j query_hash ticket b) [
          | inl (_, hash) ↦
              absurd
                (none_open ledger ticket.query_hash i no_open (subst (IsOpen ledger i) hash i_old))
          | inr j_old ↦ x i j query_hash i_old j_old
        ]
      ]
  Step-IsExclusive ledger _ (ends job_id ending) x i j query_hash a b =
      let (i_old, _) =
        close_job-IsOpen ledger job_id (state_at ending) i query_hash (state_at-ends ending) a in
      let (j_old, _) =
        close_job-IsOpen ledger job_id (state_at ending) j query_hash (state_at-ends ending) b in
      x i j query_hash i_old j_old

  -- However submissions begin and end, no two open jobs of a ledger run the same query.
  pub Reachable-IsExclusive : (ledger : Ledger) → Reachable ledger → IsExclusive ledger
  unfolding lookup
  Reachable-IsExclusive _ fresh = λ i j query_hash a b. absurd (none-ne-some a.entry a.recorded)
  Reachable-IsExclusive _ (after {ledger} {ledger'} r s) =
      Step-IsExclusive ledger ledger' s (Reachable-IsExclusive ledger r)

  -- What an execution that returns a result did.
  pub record IsExecuted (ledger : Ledger) (compiled : CompiledQuery V) (ticket : AdmissionTicket)
      (scope : TrustedScope) (now : ℕ) (run : CompiledQuery V → ℕ → Outcome V) (r : QueryResult V)
      : Type 0 where
    pub admitted : IsAdmitted digest show_value ticket compiled scope now
    pub not_running : find_open ledger ticket.query_hash ≡ none
    pub rows : List (List V)
    pub ran : run compiled (suc ticket.max_rows) ≡ fetched r.columns rows
    pub capped : r.row_count ≤ ticket.max_rows
    pub counted : r.row_count ≡ length r.rows
    pub complete : r.truncated ≡ false → r.rows ≡ rows

  settle-IsExecuted :
      (ledger ledger' : Ledger) (compiled : CompiledQuery V) (ticket : AdmissionTicket)
      (scope : TrustedScope) (now : ℕ) (job_id : Text) (run : CompiledQuery V → ℕ → Outcome V)
      (r : QueryResult V) (o : Outcome V)
      → IsAdmitted digest show_value ticket compiled scope now
      → find_open ledger ticket.query_hash ≡ none
      → run compiled (suc ticket.max_rows) ≡ o
      → (settle digest show_value ledger' ticket job_id o).1 ≡ ok r
      → IsExecuted ledger compiled ticket scope now run r
  unfolding settle
  settle-IsExecuted ledger ledger' compiled ticket scope now job_id run r (fetched columns rows) a n
        e h =
      subst (IsExecuted ledger compiled ticket scope now run) (ok-injective h) (record {
        admitted = a;
        not_running = n;
        rows = rows;
        ran = e;
        capped = length-take-le ticket.max_rows rows;
        counted = refl;
        complete = λ whole. take_all ticket.max_rows rows (ground arith);
      })
  settle-IsExecuted ledger ledger' compiled ticket scope now job_id run r crashed a n e h = cc
  settle-IsExecuted ledger ledger' compiled ticket scope now job_id run r (unconnected f) a n e h =
      cc

  -- A query that returns a result was admitted: its ticket was valid for it and no job with the same hash
  -- was open. The result has at most the rows of the ticket, and if it is not marked as truncated it has all
  -- the rows that were fetched.
  pub execute-IsExecuted :
      (ledger : Ledger) (compiled : CompiledQuery V) (ticket : AdmissionTicket)
      (scope : TrustedScope) (now : ℕ) (job_id : Text) (run : CompiledQuery V → ℕ → Outcome V)
      (r : QueryResult V)
      → (execute digest show_value ledger compiled ticket scope now job_id run).1 ≡ ok r
      → IsExecuted ledger compiled ticket scope now run r
  unfolding execute submit
  execute-IsExecuted ledger compiled ticket scope now job_id run r h =
      go (admit digest show_value ledger compiled ticket scope now) refl h
    where
      go :
          (m : Result (Unit {0}))
          → admit digest show_value ledger compiled ticket scope now ≡ m
          → (submit digest show_value ledger compiled ticket job_id run m).1 ≡ ok r
          → IsExecuted ledger compiled ticket scope now run r
      go (err e) admitted k = cc
      go (ok _) admitted k =
          let (a, n) = admit_inv ledger compiled ticket scope now admitted in
          settle-IsExecuted ledger (open_job ledger job_id ticket) compiled ticket scope now job_id
            run r _ a n refl k
