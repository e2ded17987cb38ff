-- ===== src/Tenant/History.antt =====
-- A tenant's history: the events of its changes determine its state, and a closed tenant stays closed.
use sintius.Prelude.{
  includes, true, Bool-cases, ap, ap₂, zero, ℕ, suc, ◌+◌, ◌≡◌, inl, inr, refl, none, some, List, [],
  ◌∷◌, map, length, All, Text, arith, if◌then◌else◌, ◌==◌, Option,
}
use sintius.Problem.{ok, problem, tenant_version_conflict, invalid_tenant_transition}
use sintius.Tenant.Transitions.{
  TenantState, provisioning, active, suspended, closed, TransitionTarget, to_active, to_suspended,
  to_closed, state_of, TenantEventType, tenant_provisioned, tenant_activated, tenant_suspended,
  tenant_closed, TenantSnapshot, TenantDomainEvent, TenantChange, transitions, transition_events,
  provision_tenant, transition_tenant, TenantState-discrete,
}
use sintius.Time.{Instant, Date}

-- The graph of the lifecycle, as a relation.
pub data Allowed : TenantState → TransitionTarget → Type 0 where
  activate : Allowed provisioning to_active
  suspend : Allowed active to_suspended
  close_active : Allowed active to_closed
  reactivate : Allowed suspended to_active
  close_suspended : Allowed suspended to_closed

-- The change that a transition makes.
abbrev pub change_of : TenantSnapshot → TransitionTarget → Instant → TenantChange
change_of t target at = record {
  tenant = record t { state = state_of target; version = t.version + 1; updated_at = at };
  event = record {
    event_type = transition_events target;
    tenant_id = t.id;
    aggregate_version = t.version + 1;
    occurred_at = at;
  };
}

listed :
    {s : TenantState} {target : TransitionTarget}
    → Allowed s target
    → includes TenantState-discrete (state_of target) (transitions s) ≡ true
unfolding transitions TenantState-discrete
listed activate = refl
listed suspend = refl
listed close_active = refl
listed reactivate = refl
listed close_suspended = refl

listed-Allowed :
    (s : TenantState) (target : TransitionTarget)
    → includes TenantState-discrete (state_of target) (transitions s) ≡ true
    → Allowed s target
unfolding transitions TenantState-discrete
listed-Allowed provisioning to_active h = activate
listed-Allowed active to_suspended h = suspend
listed-Allowed active to_closed h = close_active
listed-Allowed suspended to_active h = reactivate
listed-Allowed suspended to_closed h = close_suspended
listed-Allowed provisioning to_suspended h = cc
listed-Allowed provisioning to_closed h = cc
listed-Allowed active to_active h = cc
listed-Allowed suspended to_suspended h = cc
listed-Allowed closed target h = cc

-- A transition of the graph is made, at the tenant's version and a valid instant, with the event of
-- the new state and version.
pub transition-Allowed :
    (t : TenantSnapshot) (target : TransitionTarget) (at : Instant)
    → Allowed t.state target
    → transition_tenant t target t.version (some at) ≡ ok (change_of t target at)
unfolding transition_tenant
transition-Allowed t target at h = ground (arith, listed h)

-- What holds where a transition was made.
pub record Made (t : TenantSnapshot) (target : TransitionTarget) (n : ℕ) (now : Date)
    (c : TenantChange) : Type 0 where
  pub allowed : Allowed t.state target
  pub version : n ≡ t.version
  pub at : Instant
  pub clock : now ≡ some at
  pub change : c ≡ change_of t target at

-- A transition that is made is one of the graph, at the version that the caller expected.
pub transition-Made :
    (t : TenantSnapshot) (target : TransitionTarget) (n : ℕ) (now : Date) {c : TenantChange}
    → transition_tenant t target n now ≡ ok c
    → Made t target n now c
unfolding transition_tenant
transition-Made t target n none e = absurd (ground arith)
transition-Made t target n (some at) e = record {
  allowed = listed-Allowed t.state target (ground arith);
  version = ground arith;
  at = at;
  clock = refl;
  change = ground arith;
}

-- A transition that is not of the graph, or not at the tenant's version, is refused: as a conflict at
-- another version, and as invalid at the tenant's own.
pub transition_refused :
    (t : TenantSnapshot) (target : TransitionTarget) (n : ℕ) (now : Date)
    → ¬ (Allowed t.state target × (n ≡ t.version))
    → transition_tenant t target n now
      ≡ problem (if t.version == n then invalid_tenant_transition else tenant_version_conflict)
unfolding transition_tenant
transition_refused t target n now h =
    elim (Bool-cases (includes TenantState-discrete (state_of target) (transitions t.state))) [
      | inl e ↦ elim (Bool-cases (t.version == n)) [
        | inl same_version ↦ absurd (h (listed-Allowed t.state target e, ground arith))
        | inr other ↦ ground arith
      ]
      | inr e ↦ ground arith
    ]

-- The tenants that some sequence of commands leads to, each with the events of its changes, newest
-- first.
pub data History : TenantSnapshot → List TenantDomainEvent → Type 0 where
  provisioned :
      (id name : Text) (now : Date) {c : TenantChange}
      → provision_tenant id name now ≡ ok c
      → History c.tenant (c.event ∷ [])
  changed :
      {t : TenantSnapshot} {events : List TenantDomainEvent} (target : TransitionTarget) (n : ℕ)
      (now : Date) {c : TenantChange}
      → History t events
      → transition_tenant t target n now ≡ ok c
      → History c.tenant (c.event ∷ events)

-- The state that an event announces.
abbrev pub announced : TenantEventType → TenantState
announced tenant_provisioned = provisioning
announced tenant_activated = active
announced tenant_suspended = suspended
announced tenant_closed = closed

-- n, n - 1, …, 1
abbrev pub countdown : ℕ → List ℕ
countdown zero = []
countdown (suc n) = suc n ∷ countdown n

-- The state that the newest event announces.
abbrev pub latest : List TenantDomainEvent → Option TenantState
latest [] = none
latest (e ∷ events) = some (announced e.event_type)

pub record Agrees (t : TenantSnapshot) (events : List TenantDomainEvent) : Type 0 where
  pub state : latest events ≡ some t.state
  pub version : t.version ≡ length events
  pub numbers : map (λ e. e.aggregate_version) events ≡ countdown (length events)
  pub tenant : All (λ e. e.tenant_id ≡ t.id) events

announced-events :
    (target : TransitionTarget) → announced (transition_events target) ≡ state_of target
unfolding transition_events
announced-events to_active = refl
announced-events to_suspended = refl
announced-events to_closed = refl

change_of-Agrees :
    {t : TenantSnapshot} {events : List TenantDomainEvent} (target : TransitionTarget)
    (at : Instant)
    → Agrees t events
    → Agrees (change_of t target at).tenant ((change_of t target at).event ∷ events)
change_of-Agrees {t} {events} target at a =
    let next : t.version + 1 ≡ suc (length events) = omega (arith, a.version) in
    record {
      state = ap some (announced-events target);
      version = next;
      numbers = ap₂ ◌∷◌ next a.numbers;
      tenant = (refl, a.tenant);
    }

provision-Agrees :
    (id name : Text) (now : Date) {c : TenantChange}
    → provision_tenant id name now ≡ ok c
    → Agrees c.tenant (c.event ∷ [])
unfolding provision_tenant
provision-Agrees id name none e = absurd (ground arith)
provision-Agrees id name (some at) e = record {
  state = ground arith;
  version = ground arith;
  numbers = ground arith;
  tenant = (ground arith, tt);
}

-- The events of a tenant are a faithful log: the newest announces its state, they are numbered from
-- its version down to one with no gap, and they all name the tenant.
pub History-Agrees :
    {t : TenantSnapshot} {events : List TenantDomainEvent} → History t events → Agrees t events
History-Agrees (provisioned id name now e) = provision-Agrees id name now e
History-Agrees (changed {t = t} {events = events} target n now h e) =
    let m = transition-Made t target n now e in
    rw m.change (change_of-Agrees target m.at (History-Agrees h))

-- A closed tenant is final: whatever is asked of it, at its own version, is an invalid transition.
pub closed_final :
    (t : TenantSnapshot) (target : TransitionTarget) (now : Date)
    → t.state ≡ closed
    → transition_tenant t target t.version now ≡ problem invalid_tenant_transition
unfolding transition_tenant transitions
closed_final t target now h = ground arith
