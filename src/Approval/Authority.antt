-- ===== src/Approval/Authority.antt =====
-- Who a recorded decision comes from (modules/audit-governance/application/approval-commands.ts).
use sintius.Prelude.Lists.{all-find?, all-filter}
use sintius.Prelude.{
  ◌&&◌, ◌==◌, ◌⊎◌, ◌∙◌, sym, refl, none, all, filter, find?, ltb, Bool-cases, Option-cases, true,
  Option, some, List, [], ◌∷◌, Text, Text-discrete, text, text_eq, includes, ◌≡◌, arith, same_iff,
  inl, inr, ap,
}
use sintius.Problem.{Outcome, ok, Outcome-cases}
use sintius.Time.{Date}
use sintius.Context.Principal.{interactive, mfa, TenantContext}
use sintius.Context.Resolver.{current_tenant_context}
use sintius.Access.Authorizer.{Dependencies, has_permission, assert_permission}
use sintius.Approval.Types.{
  ApproverRequirement, ApprovalRequest, ApprovalDecision, ApprovalDecisionKind, approve, reject,
}
use sintius.Approval.Decide.{decide_approval, credit_for, credit_among, first_unmet, credited_count}
use sintius.Approval.Decision.{Decided, decide-Decided}
use sintius.Approval.Commands.{
  Requests, DecideApprovalCommand, load, held_permissions, decide_input, decide, put, changed_row,
  update_request,
}

module _ (d : Dependencies) (note : ApprovalRequest → Outcome (Unit {0})) where
  permission-same :
      (current : Option TenantContext) (p q : Text)
      → text_eq p q ≡ true
      → has_permission d current p [] ≡ has_permission d current q []
  permission-same current p q h =
      ap (λ (r : Text). has_permission d current r []) ((same_iff Text-discrete p q).0 h)

  held_permissions-live :
      (current : Option TenantContext) (requirements : List ApproverRequirement) (held : List Text)
      (p : Text)
      → held_permissions d note current requirements ≡ ok held
      → includes Text-discrete p held ≡ true
      → has_permission d current p [] ≡ ok true
  unfolding held_permissions
  held_permissions-live current [] held p h i = ground arith
  held_permissions-live current (r ∷ requirements) held p h i =
      elim (Outcome-cases (has_permission d current r.permission [])) [
        | inl (holds, e) ↦ elim (Outcome-cases (held_permissions d note current requirements)) [
          | inl (rest, f) ↦
              let later = held_permissions-live current requirements rest p f in
              ground (arith, permission-same current r.permission p)
          | inr f ↦ absurd (ground arith)
        ]
        | inr e ↦ absurd (ground arith)
      ]

  load-found :
      (context : TenantContext) (id : Text) (requests : Requests) (request : ApprovalRequest)
      → load context id requests ≡ ok request
      → (requests context.tenant_id id ≡ some request) × (request.tenant_id ≡ context.tenant_id)
  unfolding load
  load-found context id requests request h =
      ground (arith, same_iff Text-discrete request.tenant_id context.tenant_id)

  credit_for-some :
      (request : ApprovalRequest) (kind : ApprovalDecisionKind) (held : List Text) {p : Text}
      → credit_for request kind held ≡ ok (some p)
      → credit_among request.decisions kind
          (filter (λ r. includes Text-discrete r.permission held) request.approver_requirements)
        ≡ ok (some p)
  unfolding credit_for
  credit_for-some request kind held h = ground arith

  -- What a decision was credited with, if anything, is a permission that the actor holds.
  abbrev pub HeldCredit : TenantContext → Option Text → Type 0
  HeldCredit context none = Unit {0}
  HeldCredit context (some p) = has_permission d (some context) p [] ≡ ok true

  eligible_held :
      (held : List Text) (eligible : List ApproverRequirement) (decisions : List ApprovalDecision)
      (kind : ApprovalDecisionKind) {p : Text}
      → all (λ r. includes Text-discrete r.permission held) eligible ≡ true
      → credit_among decisions kind eligible ≡ ok (some p)
      → includes Text-discrete p held ≡ true
  unfolding credit_among first_unmet
  eligible_held held [] decisions kind all_held h = ground arith
  eligible_held held (r ∷ eligible) decisions reject all_held h = ground arith
  eligible_held held (r ∷ eligible) decisions approve {p} all_held h =
      elim (Option-cases
        (find? (λ r. ltb (credited_count decisions r.permission) r.count) (r ∷ eligible))) [
          | inl e ↦ absurd (ground arith)
          | inr (unmet, e) ↦
              let named : unmet.permission ≡ p = ground arith in
              ap (λ (q : Text). includes Text-discrete q held) (sym named)
              ∙ all-find? (λ r. includes Text-discrete r.permission held)
                  (λ r. ltb (credited_count decisions r.permission) r.count) (r ∷ eligible) all_held
                  e
        ]

  -- The credit of a decision, with the permissions that were read for it.
  credited-held :
      (context : TenantContext) (request : ApprovalRequest) (kind : ApprovalDecisionKind)
      (held : List Text) (credited : Option Text)
      → held_permissions d note (some context) request.approver_requirements ≡ ok held
      → credit_for request kind held ≡ ok credited
      → HeldCredit context credited
  credited-held context request kind held none h k = tt
  credited-held context request kind held (some p) h k =
      held_permissions-live (some context) request.approver_requirements held p h (
        eligible_held held
          (filter (λ r. includes Text-discrete r.permission held) request.approver_requirements)
          request.decisions kind
          (all-filter (λ r. includes Text-discrete r.permission held) request.approver_requirements)
          (credit_for-some request kind held k))

  -- The row that the decision changed, alone among the rows of the table.
  pub record Written (requests stored : Requests) (request next : ApprovalRequest) : Type 0 where
    pub row : ApprovalRequest
    pub found : requests next.tenant_id next.id ≡ some row
    pub unchanged_version : row.version ≡ request.version
    pub written :
        stored row.tenant_id row.id
        ≡ some (record row {
          status = next.status;
          decisions = next.decisions;
          version = next.version;
        })
    pub others :
        (tenant id : Text)
        → ((text_eq row.tenant_id tenant && text_eq row.id id) ≡ true)
          ⊎ (stored tenant id ≡ requests tenant id)

  update_request-Written :
      (requests stored : Requests) (request next : ApprovalRequest)
      → update_request next request.version requests ≡ ok stored
      → Written requests stored request next
  unfolding update_request put
  update_request-Written requests stored request next h =
      elim (Option-cases (requests next.tenant_id next.id)) [
        | inl e ↦ absurd (ground arith)
        | inr (row, e) ↦
            let same_version : (row.version == request.version) ≡ true = ground arith in
            let whole : stored ≡ put (changed_row row next) requests = ground arith in
            let itself : (text_eq row.tenant_id row.tenant_id && text_eq row.id row.id) ≡ true =
              ground (
                arith,
                (same_iff Text-discrete row.tenant_id row.tenant_id).1 refl,
                (same_iff Text-discrete row.id row.id).1 refl,
              ) in
            record {
              row = row;
              found = e;
              unchanged_version = ground arith;
              written = rw (whole, itself);
              others = λ tenant id.
                  elim (Bool-cases (text_eq row.tenant_id tenant && text_eq row.id id)) [
                    | inl here ↦ inl here
                    | inr other ↦ inr (rw (whole, other))
                  ];
            }
      ]

  -- The stored request on which a decision was made, with what the decision rests on.
  pub record Authorized (context : TenantContext) (input : DecideApprovalCommand) (now : Date)
      (requests stored : Requests) (next : ApprovalRequest) : Type 0 where
    pub request : ApprovalRequest
    pub held : List Text
    pub allowed : assert_permission d (some context) (text "approval:request:decide") [] ≡ ok tt
    pub human : context.principal_kind ≡ interactive
    pub stepped_up : context.assurance ≡ mfa
    pub found : requests context.tenant_id input.approval_id ≡ some request
    pub own_tenant : request.tenant_id ≡ context.tenant_id
    pub live :
        (p : Text)
        → includes Text-discrete p held ≡ true
        → has_permission d (some context) p [] ≡ ok true
    pub decided : Decided request (decide_input d note context input held) now next
    pub credit : HeldCredit context decided.credited
    pub written : Written requests stored request next

  -- A decision that the command stores was made by the interactive actor of the context, with MFA
  -- and the permission to decide, on the tenant's own stored request; a permission that it is
  -- credited with is one that the actor holds at that moment; and the table has that one row
  -- changed, by its status, decisions and version.
  pub decide-Authorized :
      (context : TenantContext) (input : DecideApprovalCommand) (now : Date)
      (requests stored : Requests) (next : ApprovalRequest)
      → decide d note (some context) input now requests ≡ ok (next, stored)
      → Authorized context input now requests stored next
  unfolding decide decide_input current_tenant_context
  decide-Authorized context input now requests stored next h =
      elim (Outcome-cases (load context input.approval_id requests)) [
        | inl (request, l) ↦
            elim (Outcome-cases
              (held_permissions d note (some context) request.approver_requirements)) [
                | inl (held, p) ↦
                    let made : decide_approval request (decide_input d note context input held) now
                        ≡ ok next =
                      ground arith in
                    record {
                      request = request;
                      held = held;
                      allowed = ground arith;
                      human = ground arith;
                      stepped_up = ground arith;
                      found = (load-found context input.approval_id requests request l).0;
                      own_tenant = (load-found context input.approval_id requests request l).1;
                      live = λ q.
                          held_permissions-live (some context) request.approver_requirements held q
                            p;
                      credit =
                          credited-held context request input.decision held
                            (decide-Decided request (decide_input d note context input held) now
                              made).credited
                            p
                            (decide-Decided request (decide_input d note context input held) now
                              made).credit;
                      written = update_request-Written requests stored request next (ground arith);
                      decided =
                          decide-Decided request (decide_input d note context input held) now made;
                    }
                | inr p ↦ absurd (ground arith)
              ]
        | inr l ↦ absurd (ground arith)
      ]
