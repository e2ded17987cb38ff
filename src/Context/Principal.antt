-- ===== src/Context/Principal.antt =====
-- Authenticated principals and the contexts that are derived from them
-- (platform/tenant-context/src/context.ts, platform/tenant-context/src/platform.ts). Whether a weak set holds an
-- object is a Boolean argument, `Date.parse` a parameter, and a value outside the source's type is
-- `none`.
use sintius.Prelude.{
  Bool, true, false, ◌||◌, not, ◌==◌, if◌then◌else◌, Option, none, some, List, [], ◌∷◌, ◌++◌, any,
  length, includes, Text, Text-discrete, is_blank,
}
use sintius.Problem.{
  Outcome, ok, problem, ◌>>◌, throw_if, invalid_trusted_context, authentication_failed,
}
use sintius.Time.{Instant, Date}

pub data PrincipalKind : Type 0 where
  interactive workload : PrincipalKind

pub data Assurance : Type 0 where
  single_factor mfa workload_assurance : Assurance

pub record AuthenticatedPrincipal : Type 0 where
  pub actor_id : Text
  pub kind : PrincipalKind
  pub tenant_memberships : List Text
  pub assurance : Assurance
  pub credential_id : Text
  pub issuer : Text
  pub audiences : List Text
  pub scopes : List Text
  pub expires_at : Instant

pub record IssueAuthenticatedPrincipalInput : Type 0 where
  pub actor_id : Text
  pub kind : Option PrincipalKind
  pub tenant_memberships : List Text
  pub assurance : Option Assurance
  pub credential_id : Text
  pub issuer : Text
  pub audiences : List Text
  pub scopes : List Text
  pub expires_at : Text

pub record TenantContext : Type 0 where
  pub tenant_id : Text
  pub actor_id : Text
  pub principal_kind : PrincipalKind
  pub correlation_id : Text
  pub causation_id : Option Text
  pub assurance : Assurance
  pub credential_id : Text
  pub audiences : List Text
  pub scopes : List Text

pub record PlatformCommandContext : Type 0 where
  pub actor_id : Text
  pub principal_kind : PrincipalKind
  pub correlation_id : Text
  pub causation_id : Option Text
  pub assurance : Assurance
  pub credential_id : Text
  pub audiences : List Text
  pub scopes : List Text

-- `requireNonBlank`
abbrev pub require_non_blank : Text → Outcome Text
require_non_blank value = throw_if (is_blank value) invalid_trusted_context >> ok value

-- `assuranceMatchesKind`
unfoldable pub assurance_matches : Option PrincipalKind → Option Assurance → Bool
assurance_matches (some workload) (some workload_assurance) = true
assurance_matches (some workload) _ = false
assurance_matches _ (some workload_assurance) = false
assurance_matches _ _ = true

abbrev pub is_none {ℓ} : {A : Type ℓ} → Option A → Bool
is_none none = true
is_none (some a) = false

unfoldable pub metadata_invalid : IssueAuthenticatedPrincipalInput → Bool
metadata_invalid input =
    is_none input.kind
    || is_none input.assurance
    || not (assurance_matches input.kind input.assurance)
    || is_blank input.actor_id
    || is_blank input.credential_id
    || is_blank input.issuer
    || is_blank input.expires_at
    || any is_blank input.tenant_memberships
    || length input.audiences == 0
    || any is_blank input.audiences
    || any is_blank input.scopes

-- `[...new Set(xs)]`, on top of the elements that are in the set.
unfoldable pub unique_onto : List Text → List Text → List Text
unique_onto seen [] = seen
unique_onto seen (x ∷ xs) =
    unique_onto (if includes Text-discrete x seen then seen else seen ++ x ∷ []) xs

module _ (parse_date : Text → Date) where
  -- `issueAuthenticatedPrincipal`
  unfoldable pub issue_authenticated_principal :
      IssueAuthenticatedPrincipalInput → Outcome AuthenticatedPrincipal
  issue_authenticated_principal input = do
    throw_if (metadata_invalid input) authentication_failed
    elim input.kind [
      | none ↦ problem authentication_failed
      | some kind ↦ elim input.assurance [
        | none ↦ problem authentication_failed
        | some assurance ↦ elim (parse_date input.expires_at) [
          | none ↦ problem authentication_failed
          | some expiry ↦ ok (record {
            actor_id = input.actor_id;
            kind = kind;
            tenant_memberships = unique_onto [] input.tenant_memberships;
            assurance = assurance;
            credential_id = input.credential_id;
            issuer = input.issuer;
            audiences = unique_onto [] input.audiences;
            scopes = unique_onto [] input.scopes;
            expires_at = expiry;
          })
        ]
      ]
    ]
