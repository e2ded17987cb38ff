-- ===== src/Examples/Tenants.antt =====
-- A tenant that is provisioned, activated and closed (modules/identity-tenant).
use sintius.Prelude.{
  arith, ◌≡◌, refl, if◌then◌else◌, ◌==◌, [], ◌∷◌, text, some, is_space, trim, trim_start,
}
use sintius.Problem.{ok, problem, invalid_tenant_transition, tenant_version_conflict}
use sintius.Tenant.Transitions.{
  provisioning, closed, to_active, TenantSnapshot, TenantDomainEvent, tenant_provisioned,
  provision_tenant, transition_tenant,
}
use sintius.Tenant.History.{
  Allowed, activate, change_of, transition-Allowed, transition_refused, provisioned, changed,
  Agrees, History-Agrees, closed_final,
}

abbrev acme : TenantSnapshot
acme = record {
  id = text "t1";
  display_name = text "Acme";
  state = provisioning;
  version = 1;
  created_at = 100;
  updated_at = 100;
}

stale : ¬ (Allowed provisioning to_active × (2 ≡ acme.version))
stale p = absurd (omega (arith, p.1))

transition_refused_example :
    transition_tenant acme to_active 2 (some 200)
    ≡ problem (if acme.version == 2 then invalid_tenant_transition else tenant_version_conflict)
transition_refused_example = transition_refused acme to_active 2 (some 200) stale

closed_final_example :
    transition_tenant (record acme { state = closed }) to_active 1 (some 200)
    ≡ problem invalid_tenant_transition
closed_final_example = closed_final (record acme { state = closed }) to_active (some 200) refl

activated : transition_tenant acme to_active 1 (some 200) ≡ ok (change_of acme to_active 200)
activated = transition-Allowed acme to_active 200 activate

abbrev founding : TenantDomainEvent
founding = record {
  event_type = tenant_provisioned;
  tenant_id = text "t1";
  aggregate_version = 1;
  occurred_at = 100;
}

founded :
    provision_tenant (text "t1") (text "Acme") (some 100)
    ≡ ok (record { tenant = acme; event = founding })
unfolding provision_tenant trim trim_start is_space
founded = refl

History-Agrees_example :
    Agrees
      (change_of acme to_active 200).tenant
      ((change_of acme to_active 200).event ∷ founding ∷ [])
History-Agrees_example = History-Agrees (
    changed to_active 1 (some 200) (provisioned (text "t1") (text "Acme") (some 100) founded)
      activated)
