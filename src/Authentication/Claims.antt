-- ===== src/Authentication/Claims.antt =====
-- What is checked of a verified credential: `validateBaseClaims`, `normalizedTenants` and `verify` of
-- modules/identity-tenant/application/authentication.ts. The ports are parameters that may throw.
use sintius.Authentication.{
  AuthenticationMechanism, AuthenticationMechanism-discrete, IdentityProviderPolicy,
  VerifiedCredentialClaims, AuthenticationInput, Attempt, done, refused, ◌>>=◌, ◌>>◌, reject_if,
  call, failed, malformed_request, unknown_provider, credential_invalid, claims_invalid,
  no_tenant_membership, revoked,
}
use sintius.Context.Principal.{unique_onto}
use sintius.Prelude.{
  ℕ, ◌+◌, ◌*◌, Bool, true, false, ◌||◌, not, leb, ltb, ◌==◌, Option, none, some, Text,
  Text-discrete, text_eq, is_blank, List, [], any, length, includes, same,
}
use sintius.Problem.{Outcome, ok, problem, fault}
use sintius.Time.{Date}

pub record AuthenticationDependencies : Type 0 where
  pub find_by_id : Text → Outcome (Option IdentityProviderPolicy)
  pub verify_credential : Text → IdentityProviderPolicy → Outcome VerifiedCredentialClaims
  pub is_revoked : (issuer credential_id : Text) → Outcome Bool

abbrev pub has_only_non_blank : List Text → Bool
has_only_non_blank values = not (any is_blank values)

-- `expiry === undefined || expiry <= now - skew`; a comparison with NaN is false.
unfoldable pub is_expired : (expiry now : Date) → (skew_milliseconds : ℕ) → Bool
is_expired none now skew = true
is_expired (some expiry) none skew = false
is_expired (some expiry) (some now) skew = leb (expiry + skew) now

-- The test of a claim `notBefore` that is there.
unfoldable pub is_early : (not_before now : Date) → (skew_milliseconds : ℕ) → Bool
is_early none now skew = true
is_early (some start) none skew = false
is_early (some start) (some now) skew = ltb (now + skew) start

module _ (parse_date : Text → Date) where
  unfoldable pub too_early : Option Text → Date → ℕ → Bool
  unfolding is_early
  too_early none now skew = false
  too_early (some not_before) now skew = is_early (parse_date not_before) now skew

  -- The condition of `validateBaseClaims`.
  unfoldable pub claims_are_invalid :
      VerifiedCredentialClaims → IdentityProviderPolicy → Text → Date → Bool
  unfolding is_expired too_early AuthenticationMechanism-discrete
  claims_are_invalid claims policy required_audience now =
      let skew = policy.clock_skew_seconds * 1000 in
      not (same AuthenticationMechanism-discrete claims.mechanism policy.mechanism)
      || not (text_eq claims.issuer policy.issuer)
      || is_blank claims.credential_id
      || is_blank claims.subject
      || is_blank required_audience
      || not (has_only_non_blank claims.audiences)
      || not (includes Text-discrete required_audience policy.allowed_audiences)
      || not (includes Text-discrete required_audience claims.audiences)
      || is_expired (parse_date claims.expires_at) now skew
      || too_early claims.not_before now skew

  -- `validateBaseClaims`
  unfoldable pub validate_base_claims :
      VerifiedCredentialClaims → IdentityProviderPolicy → Text → Date → Attempt (Unit {0})
  validate_base_claims claims policy required_audience now =
      reject_if (claims_are_invalid claims policy required_audience now) claims_invalid failed

  -- `normalizedTenants`
  unfoldable pub normalized_tenants : VerifiedCredentialClaims → Attempt (List Text)
  normalized_tenants claims =
      let values = unique_onto [] claims.tenant_ids in
      reject_if (any is_blank claims.tenant_ids) claims_invalid failed
      >> reject_if (length values == 0) no_tenant_membership failed
      >> done values

  -- The policy of the provider, of one of the expected mechanisms.
  unfoldable pub known_policy :
      AuthenticationDependencies
      → AuthenticationInput
      → List AuthenticationMechanism
      → Attempt IdentityProviderPolicy
  unfolding AuthenticationMechanism-discrete
  known_policy d input expected =
      reject_if (is_blank input.provider_id || is_blank input.raw_credential) malformed_request
        failed
      >> (call (d.find_by_id input.provider_id) >>= λ found. elim found [
        | none ↦ refused unknown_provider failed
        | some policy ↦
            reject_if (not (includes AuthenticationMechanism-discrete policy.mechanism expected))
              unknown_provider failed
            >> done policy
      ])

  -- The verifier's answer; whatever it throws is an invalid credential.
  unfoldable pub verified_claims :
      AuthenticationDependencies
      → AuthenticationInput
      → IdentityProviderPolicy
      → Attempt VerifiedCredentialClaims
  verified_claims d input policy = elim (d.verify_credential input.raw_credential policy) [
    | ok claims ↦ done claims
    | problem c ↦ refused credential_invalid failed
    | fault e ↦ refused credential_invalid failed
  ]

  -- The checks of verified claims, with the revocation.
  unfoldable pub check_claims :
      AuthenticationDependencies
      → AuthenticationInput
      → Date
      → IdentityProviderPolicy
      → VerifiedCredentialClaims
      → Attempt (Unit {0})
  check_claims d input now policy claims = do
    validate_base_claims claims policy input.required_audience now
    is_revoked ← call (d.is_revoked claims.issuer claims.credential_id)
    reject_if is_revoked revoked failed
