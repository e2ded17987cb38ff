-- ===== src/Tenant/Stored.antt =====
-- The stored response of a tenant command (`storedTenant` and `tenantFromStored` of
-- modules/identity-tenant/application/tenant-commands.ts). The ISO text of an instant is a parameter.
use sintius.Context.Principal.{require_non_blank}
use sintius.Idempotency.Executor.{StoredResponse}
use sintius.Idempotency.Payload.{
  Json, Members, number, string, object, class_object, no_member, member, integer, own,
}
use sintius.Prelude.Int.{ℤ, pos}
use sintius.Prelude.{
  ℕ, false, not, if◌then◌else◌, Option, some, Text, Text-discrete, ℕ_discrete, text, text_eq,
  is_blank, ◌≡◌, refl, Bool-cases, inl, inr,
}
use sintius.Problem.{Outcome, ok, problem, ◌>>=◌, ◌>>◌, throw_if, invalid_trusted_context}
use sintius.Tenant.Transitions.{
  TenantState, provisioning, active, suspended, closed, TenantSnapshot,
}
use sintius.Time.{Instant}

unfoldable pub state_text : TenantState → Text
state_text provisioning = text "PROVISIONING"
state_text active = text "ACTIVE"
state_text suspended = text "SUSPENDED"
state_text closed = text "CLOSED"

-- A snapshot as the caller of a command gets it: its dates are ISO texts.
pub record TenantView : Type 0 where
  pub id : Text
  pub display_name : Text
  pub state : TenantState
  pub version : ℤ
  pub created_at : Text
  pub updated_at : Text

module _ (iso : Instant → Text) where
  -- `storedTenant`
  unfoldable pub stored_tenant : TenantSnapshot → (status : ℕ) → StoredResponse
  unfolding state_text
  stored_tenant tenant status = record {
    status = some status;
    body = object (
        member (text "id") (string tenant.id) (
          member (text "display_name") (string tenant.display_name) (
            member (text "state") (string (state_text tenant.state)) (
              member (text "version") (number (integer (pos tenant.version))) (
                member (text "created_at") (string (iso tenant.created_at))
                  (member (text "updated_at") (string (iso tenant.updated_at)) no_member))))));
  }

  unfoldable pub view : TenantSnapshot → TenantView
  view tenant = record {
    id = tenant.id;
    display_name = tenant.display_name;
    state = tenant.state;
    version = pos tenant.version;
    created_at = iso tenant.created_at;
    updated_at = iso tenant.updated_at;
  }

abbrev invalid {ℓ} : {A : Type ℓ} → Outcome A
invalid = problem invalid_trusted_context

-- The members of a body that is an object and no array.
abbrev members_of : Json → Outcome Members
members_of (object members) = ok members
members_of (class_object members) = ok members
members_of body = invalid

abbrev string_of : Option Json → Outcome Text
string_of (some (string s)) = ok s
string_of other = invalid

abbrev integer_of : Option Json → Outcome ℤ
integer_of (some (number (integer n))) = ok n
integer_of other = invalid

-- The state that a text names.
unfoldable pub state_of_text : Text → Outcome TenantState
unfolding state_text
state_of_text s =
    if text_eq s (state_text provisioning)
    then ok provisioning
    else if text_eq s (state_text active)
    then ok active
    else if text_eq s (state_text suspended)
    then ok suspended
    else if text_eq s (state_text closed)
    then ok closed
    else invalid

-- `tenantFromStored`; a body that fails any of the tests is refused with the same problem.
unfoldable pub tenant_from_stored :
    StoredResponse → (expected_tenant_id : Text) → Outcome TenantView
unfolding state_of_text own
tenant_from_stored response expected_tenant_id = do
  value ← members_of response.body
  id ← string_of (own (text "id") value)
  throw_if (not (text_eq id expected_tenant_id)) invalid_trusted_context
  display_name ← string_of (own (text "display_name") value)
  named ← string_of (own (text "state") value)
  state ← state_of_text named
  version ← integer_of (own (text "version") value)
  created_at ← string_of (own (text "created_at") value)
  updated_at ← string_of (own (text "updated_at") value)
  checked_id ← require_non_blank id
  ok (record {
    id = checked_id;
    display_name = display_name;
    state = state;
    version = version;
    created_at = created_at;
    updated_at = updated_at;
  })

state_of_text-state_text : (s : TenantState) → state_of_text (state_text s) ≡ ok s
unfolding state_of_text state_text Text-discrete ℕ_discrete
state_of_text-state_text provisioning = refl
state_of_text-state_text active = refl
state_of_text-state_text suspended = refl
state_of_text-state_text closed = refl

-- The response that a command stores for a tenant is read back as that tenant, field by field, and
-- only for the tenant's own identifier.
pub tenant_from_stored-stored_tenant :
    (iso : Instant → Text) (tenant : TenantSnapshot) (status : ℕ) (expected : Text)
    → is_blank tenant.id ≡ false
    → tenant_from_stored (stored_tenant iso tenant status) expected ≡ (
        if text_eq tenant.id expected
        then ok (view iso tenant)
        else problem invalid_trusted_context)
unfolding tenant_from_stored stored_tenant view Text-discrete ℕ_discrete
tenant_from_stored-stored_tenant iso tenant status expected h =
    elim (Bool-cases (text_eq tenant.id expected)) [
      | inl e ↦ rw (e, state_of_text-state_text tenant.state, h)
      | inr e ↦ rw e
    ]
