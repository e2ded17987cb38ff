-- ===== src/Authentication/Accepted.antt =====
-- What an accepted credential has passed, and what its principal may do.
use sintius.Access.Authorizer.{platform_audience}
use sintius.Authentication.Claims.{
  AuthenticationDependencies, known_policy, verified_claims, check_claims, validate_base_claims,
  claims_are_invalid, is_expired, is_early, too_early,
}
use sintius.Authentication.Entry.{work, tenant_work, with_claims}
use sintius.Authentication.Session.{answer}
use sintius.Authentication.{
  AuthenticationMechanism, AuthenticationMechanism-discrete, IdentityProviderPolicy,
  VerifiedCredentialClaims, AuthenticationInput, Attempt, done, refused, thrown_problem,
  thrown_fault,
}
use sintius.Context.Principal.{AuthenticatedPrincipal}
use sintius.Prelude.{
  ℕ, ◌+◌, ◌*◌, ◌<◌, ◌≤◌, any, is_blank, Option, none, Text-discrete, same_iff, Bool, true, false,
  some, Text, text_eq, List, includes, ◌≡◌, refl, arith, Bool-cases, inl, inr, ◌⊎◌,
}
use sintius.Problem.{ok}
use sintius.Time.{Instant, Date}
use mathlib.Core.Option.{map}

abbrev pub is_done : {A : Type 0} → Attempt A → Bool
is_done (done a) = true
is_done (refused reason code) = false
is_done (thrown_problem c) = false
is_done (thrown_fault e) = false

pub Attempt-cases : {A : Type 0} (m : Attempt A) → ((a : A) × (m ≡ done a)) ⊎ (is_done m ≡ false)
Attempt-cases (done a) = inl (a, refl)
Attempt-cases (refused reason code) = inr refl
Attempt-cases (thrown_problem c) = inr refl
Attempt-cases (thrown_fault e) = inr refl

-- An instant of expiry that has not passed, but for the skew; without a clock nothing has passed.
pub data NotExpired : (expiry now : Date) → (skew_milliseconds : ℕ) → Type 0 where
  unclocked : {e : Instant} {skew : ℕ} → NotExpired (some e) none skew
  ahead : {e t : Instant} {skew : ℕ} → t < e + skew → NotExpired (some e) (some t) skew

-- A credential whose lifetime has begun, but for the skew.
pub data Started
    : (not_before : Option Date) → (now : Date) → (skew_milliseconds : ℕ) → Type 0 where
  unlimited : {now : Date} {skew : ℕ} → Started none now skew
  unclocked : {b : Instant} {skew : ℕ} → Started (some (some b)) none skew
  begun : {b t : Instant} {skew : ℕ} → b ≤ t + skew → Started (some (some b)) (some t) skew

is_expired-NotExpired :
    (expiry now : Date) (skew : ℕ) → is_expired expiry now skew ≡ false → NotExpired expiry now skew
unfolding is_expired
is_expired-NotExpired none now skew h = cc
is_expired-NotExpired (some e) none skew h = unclocked
is_expired-NotExpired (some e) (some t) skew h = ahead (ground arith)

is_early-Started :
    (not_before now : Date) (skew : ℕ)
    → is_early not_before now skew ≡ false
    → Started (some not_before) now skew
unfolding is_early
is_early-Started none now skew h = cc
is_early-Started (some b) none skew h = unclocked
is_early-Started (some b) (some t) skew h = begun (ground arith)

module _ (parse_date : Text → Date) (d : AuthenticationDependencies) where
  -- Claims that hold: of the policy's mechanism and issuer, with a credential and a subject that are
  -- named, for an audience that the policy allows and the credential carries, within its lifetime.
  pub record Current (claims : VerifiedCredentialClaims) (policy : IdentityProviderPolicy)
      (audience : Text) (now : Date) : Type 0 where
    pub mechanism : claims.mechanism ≡ policy.mechanism
    pub issuer : claims.issuer ≡ policy.issuer
    pub credential_named : is_blank claims.credential_id ≡ false
    pub subject_named : is_blank claims.subject ≡ false
    pub audience_named : is_blank audience ≡ false
    pub audiences_named : any is_blank claims.audiences ≡ false
    pub offered : includes Text-discrete audience policy.allowed_audiences ≡ true
    pub carried : includes Text-discrete audience claims.audiences ≡ true
    pub unexpired : NotExpired (parse_date claims.expires_at) now (policy.clock_skew_seconds * 1000)
    pub started : Started (map parse_date claims.not_before) now (policy.clock_skew_seconds * 1000)

  too_early-Started :
      (not_before : Option Text) (now : Date) (skew : ℕ)
      → too_early parse_date not_before now skew ≡ false
      → Started (map parse_date not_before) now skew
  unfolding too_early
  too_early-Started none now skew h = unlimited
  too_early-Started (some s) now skew h = is_early-Started (parse_date s) now skew h

  claims-Current :
      (claims : VerifiedCredentialClaims) (policy : IdentityProviderPolicy) (audience : Text)
      (now : Date)
      → claims_are_invalid parse_date claims policy audience now ≡ false
      → Current claims policy audience now
  unfolding claims_are_invalid
  claims-Current claims policy audience now h = record {
    mechanism =
        (same_iff AuthenticationMechanism-discrete claims.mechanism policy.mechanism).0
          (ground arith);
    issuer = (same_iff Text-discrete claims.issuer policy.issuer).0 (ground arith);
    credential_named = ground arith;
    subject_named = ground arith;
    audience_named = ground arith;
    audiences_named = ground arith;
    offered = ground arith;
    carried = ground arith;
    unexpired = is_expired-NotExpired (parse_date claims.expires_at) now _ (ground arith);
    started = too_early-Started claims.not_before now _ (ground arith);
  }

  -- The provider's policy was found, the verifier accepted the credential, its claims hold at the
  -- time of the attempt, and it has not been revoked.
  pub record Verified (input : AuthenticationInput) (now : Date) : Type 0 where
    pub policy : IdentityProviderPolicy
    pub claims : VerifiedCredentialClaims
    pub known : d.find_by_id input.provider_id ≡ ok (some policy)
    pub signed : d.verify_credential input.raw_credential policy ≡ ok claims
    pub current : Current claims policy input.required_audience now
    pub not_revoked : d.is_revoked claims.issuer claims.credential_id ≡ ok false

  known_policy-found :
      (input : AuthenticationInput) (expected : List AuthenticationMechanism)
      {policy : IdentityProviderPolicy}
      → known_policy parse_date d input expected ≡ done policy
      → (d.find_by_id input.provider_id ≡ ok (some policy))
        × (includes AuthenticationMechanism-discrete policy.mechanism expected ≡ true)
  unfolding known_policy
  known_policy-found input expected h = ground arith

  verified_claims-signed :
      (input : AuthenticationInput) (policy : IdentityProviderPolicy)
      {claims : VerifiedCredentialClaims}
      → verified_claims parse_date d input policy ≡ done claims
      → d.verify_credential input.raw_credential policy ≡ ok claims
  unfolding verified_claims
  verified_claims-signed input policy h = ground arith

  check_claims-passed :
      (input : AuthenticationInput) (now : Date) (policy : IdentityProviderPolicy)
      (claims : VerifiedCredentialClaims)
      → check_claims parse_date d input now policy claims ≡ done tt
      → (claims_are_invalid parse_date claims policy input.required_audience now ≡ false)
        × (d.is_revoked claims.issuer claims.credential_id ≡ ok false)
  unfolding check_claims validate_base_claims
  check_claims-passed input now policy claims h = ground arith

  -- Work that ends with a principal: its verified claims, and the entry point's own part.
  pub record Worked (input : AuthenticationInput) (now : Date)
      (expected : List AuthenticationMechanism)
      (rest : IdentityProviderPolicy → VerifiedCredentialClaims → Attempt AuthenticatedPrincipal)
      (p : AuthenticatedPrincipal) : Type 0 where
    pub verified : Verified input now
    pub mechanism :
        includes AuthenticationMechanism-discrete verified.policy.mechanism expected ≡ true
    pub rested : rest verified.policy verified.claims ≡ done p

  module _ (input : AuthenticationInput) (now : Date) (expected : List AuthenticationMechanism)
      (rest : IdentityProviderPolicy → VerifiedCredentialClaims → Attempt AuthenticatedPrincipal)
      {p : AuthenticatedPrincipal} where
    with_claims-parts :
        (policy : IdentityProviderPolicy) (claims : VerifiedCredentialClaims)
        → with_claims parse_date d input now rest policy claims ≡ done p
        → (check_claims parse_date d input now policy claims ≡ done tt)
          × (rest policy claims ≡ done p)
    unfolding with_claims
    with_claims-parts policy claims h = ground arith

    work-parts :
        (work parse_date d input now expected rest).1 ≡ done p
        → (policy : IdentityProviderPolicy) × (claims : VerifiedCredentialClaims) × (known_policy
              parse_date d input expected
            ≡ done policy)
          × (verified_claims parse_date d input policy ≡ done claims)
          × (with_claims parse_date d input now rest policy claims ≡ done p)
    unfolding work
    work-parts h = elim (Attempt-cases (known_policy parse_date d input expected)) [
      | inr lost ↦ absurd (ground arith)
      | inl (policy, known) ↦ elim (Attempt-cases (verified_claims parse_date d input policy)) [
        | inr lost ↦ absurd (ground arith)
        | inl (claims, signed) ↦ (policy, claims, known, signed, ground arith)
      ]
    ]

    pub work-Worked :
        (work parse_date d input now expected rest).1 ≡ done p → Worked input now expected rest p
    work-Worked h =
        let (policy, claims, found, accepted, passed) = work-parts h in
        let (known, mechanism) = known_policy-found input expected found in
        let (checked, rested) = with_claims-parts policy claims passed in
        let (current, not_revoked) = check_claims-passed input now policy claims checked in
        record {
          verified = record {
            policy = policy;
            claims = claims;
            known = known;
            signed = verified_claims-signed input policy accepted;
            current = claims-Current claims policy input.required_audience now current;
            not_revoked = not_revoked;
          };
          mechanism = mechanism;
          rested = rested;
        }

    pub tenant_work-Worked :
        (tenant_work parse_date d input now expected rest).1 ≡ done p
        → Worked input now expected rest p
          × (text_eq input.required_audience platform_audience ≡ false)
    unfolding tenant_work
    tenant_work-Worked h = elim (Bool-cases (text_eq input.required_audience platform_audience)) [
      | inl e ↦ absurd (ground arith)
      | inr e ↦ (work-Worked (rw e at h), e)
    ]

  pub answer-done :
      (a : Attempt AuthenticatedPrincipal) {p : AuthenticatedPrincipal}
      → answer a ≡ ok p
      → a ≡ done p
  unfolding answer
  answer-done (done q) h = ground arith
  answer-done a h = ground arith
