-- ===== src/Sql/Gateway/Admission.antt =====
-- Which queries a ticket lets run.
use text_to_sql_rag.Prelude.{ℕ, ◌+◌, ◌≤◌, ◌≡◌, refl, ◌↔◌, List, arith, Text, list_eq, nat_eq, map}
use text_to_sql_rag.Contracts.Errors.{ok}
use text_to_sql_rag.Contracts.Scope.{TrustedScope}
use text_to_sql_rag.Contracts.Plan.{CompiledQuery}
use text_to_sql_rag.Sql.Gateway.{AdmissionTicket, canonical_hash, issue_ticket, verify}
use text_to_sql_rag.Sql.Gateway.Spacing.{squeezed}

module _ {V : Type 0} (digest : Text → List Text → Text) (show_value : V → Text) where
  -- The ticket is not expired, and was issued for this query, policy epoch, principal and tenant.
  pub record IsAdmitted (ticket : AdmissionTicket) (compiled : CompiledQuery V)
      (scope : TrustedScope) (now : ℕ) : Type 0 where
    pub current : now ≤ ticket.expires_at
    pub same_query :
        canonical_hash digest show_value compiled.sql compiled.parameter_values ≡ ticket.query_hash
    pub same_epoch : scope.policy_epoch ≡ ticket.policy_epoch
    pub same_principal : scope.principal_id ≡ ticket.principal_id
    pub same_tenant : scope.tenant_id ≡ ticket.tenant_id

  -- A ticket passes its check exactly for the hash of the query, the policy epoch, the principal and the tenant that it
  -- was issued for, and up to the time at which it expires.
  pub verify_lem :
      (ticket : AdmissionTicket) (compiled : CompiledQuery V) (scope : TrustedScope) (now : ℕ)
      → (verify digest show_value ticket compiled scope now ≡ ok tt)
        ↔ IsAdmitted ticket compiled scope now
  unfolding verify
  verify_lem ticket compiled scope now = (
    (λ h. record {
      current = ground (arith, h);
      same_query = ground (arith, h);
      same_epoch = ground (arith, h);
      same_principal = ground (arith, h);
      same_tenant = ground (arith, h);
    }),
    (λ k. ground (arith, k.current, k.same_query, k.same_epoch, k.same_principal, k.same_tenant)),
  )

  -- A ticket that was just issued is good for its own query and scope until its time has passed.
  pub verify-issue_ticket :
      (compiled : CompiledQuery V) (scope : TrustedScope) (ttl issued now : ℕ) (ticket_id : Text)
      → now ≤ issued + ttl
      → verify digest show_value
          (issue_ticket digest show_value compiled scope ttl issued ticket_id)
          compiled
          scope
          now
        ≡ ok tt
  unfolding issue_ticket
  verify-issue_ticket compiled scope ttl issued now ticket_id h =
      (verify_lem (issue_ticket digest show_value compiled scope ttl issued ticket_id) compiled
          scope now).1
        (record {
          current = h;
          same_query = refl;
          same_epoch = refl;
          same_principal = refl;
          same_tenant = refl;
        })

  -- What makes two requests one: up to white space the same SQL, the same printed values, and the same policy epoch,
  -- principal and tenant; and the time of the second is not past the end of a ticket for the first.
  pub record IsSameRequest (admitted submitted : CompiledQuery V) (scope scope' : TrustedScope)
      (ends now : ℕ) : Type 0 where
    pub in_time : now ≤ ends
    pub same_sql : squeezed submitted.sql ≡ squeezed admitted.sql
    pub same_values :
        map show_value submitted.parameter_values ≡ map show_value admitted.parameter_values
    pub same_epoch : scope'.policy_epoch ≡ scope.policy_epoch
    pub same_principal : scope'.principal_id ≡ scope.principal_id
    pub same_tenant : scope'.tenant_id ≡ scope.tenant_id
