-- ===== src/Authentication/Operators.antt =====
-- What the principal of a platform operator may do.
use sintius.Access.Authorizer.{platform_audience, platform_permission_catalog}
use sintius.Authentication.Accepted.{Verified, work-Worked, answer-done}
use sintius.Authentication.Claims.{AuthenticationDependencies}
use sintius.Authentication.Entry.{
  has_mfa, work, platform_rest, issue, platform_permissions_for, granted_permissions,
  platform_role_permissions, roles_of,
}
use sintius.Authentication.Session.{attempt, authenticate_platform_operator}
use sintius.Authentication.{
  oidc, saml, IdentityProviderPolicy, VerifiedCredentialClaims, AuthenticationInput, done,
}
use sintius.Context.Trusted.{all-unique_onto}
use sintius.Context.Principal.{
  AuthenticatedPrincipal, interactive, mfa, unique_onto, issue_authenticated_principal,
}
use sintius.Prelude.Sorting.{all-sort}
use sintius.Prelude.{
  Bool, true, Text, text, Text-discrete, text_eq, List, [], ◌∷◌, includes, ◌≡◌, refl, arith,
  Bool-cases, inl, inr, all, length, all-append, ℕ_discrete,
}
use sintius.Problem.{ok}
use sintius.Time.{Date}

module _ (parse_date : Text → Date) (d : AuthenticationDependencies) where
  abbrev pub in_catalog : Text → Bool
  in_catalog permission = includes Text-discrete permission platform_permission_catalog

  role-in_catalog : (role : Text) → all in_catalog (platform_role_permissions role) ≡ true
  unfolding platform_role_permissions Text-discrete ℕ_discrete
  role-in_catalog role = elim (Bool-cases (text_eq role (text "platform_tenant_provisioner"))) [
    | inl e ↦ rw (e, platform_role_permissions)
    | inr e ↦ elim (Bool-cases (text_eq role (text "platform_tenant_lifecycle_operator"))) [
      | inl k ↦ rw (e, k, platform_role_permissions)
      | inr k ↦ rw (e, k, platform_role_permissions)
    ]
  ]

  granted-in_catalog : (roles : List Text) → all in_catalog (granted_permissions roles) ≡ true
  unfolding granted_permissions
  granted-in_catalog [] = refl
  granted-in_catalog (role ∷ roles) = ground (
    arith,
    all-append in_catalog (platform_role_permissions role) (granted_permissions roles),
    role-in_catalog role,
    granted-in_catalog roles,
  )

  permissions-in_catalog :
      (roles : List Text) → all in_catalog (platform_permissions_for roles) ≡ true
  unfolding platform_permissions_for
  permissions-in_catalog roles =
      all-sort in_catalog (unique_onto [] (granted_permissions roles))
        (all-unique_onto in_catalog [] (granted_permissions roles) refl (granted-in_catalog roles))

  platform-parts :
      (policy : IdentityProviderPolicy) (claims : VerifiedCredentialClaims)
      {p : AuthenticatedPrincipal}
      → platform_rest parse_date d policy claims ≡ done p
      → (length claims.tenant_ids ≡ 0)
        × (has_mfa claims ≡ true)
        × (p.kind ≡ interactive)
        × (p.assurance ≡ mfa)
        × (p.tenant_memberships ≡ [])
        × (p.audiences ≡ platform_audience ∷ [])
        × (p.scopes ≡ unique_onto [] (platform_permissions_for (roles_of parse_date d claims)))
  unfolding platform_rest unique_onto issue issue_authenticated_principal
  platform-parts policy claims h = ground arith

  -- A platform operator is accepted only with a verified credential for the platform's audience that
  -- claims no tenant and proves a second factor. The principal has no tenant membership, so it
  -- enters no tenant, and each of its scopes is a permission of the platform's catalog, whatever
  -- role names the identity provider asserts.
  pub authenticate_platform_operator-Verified :
      (input : AuthenticationInput) (now recorded_at : Date) {p : AuthenticatedPrincipal}
      → (authenticate_platform_operator parse_date d input now recorded_at).0 ≡ ok p
      → (v : Verified parse_date d (record input { required_audience = platform_audience }) now)
        × (length v.claims.tenant_ids ≡ 0)
        × (has_mfa v.claims ≡ true)
        × (p.kind ≡ interactive)
        × (p.assurance ≡ mfa)
        × (p.tenant_memberships ≡ [])
        × (p.audiences ≡ platform_audience ∷ [])
        × (all in_catalog p.scopes ≡ true)
  unfolding authenticate_platform_operator attempt
  authenticate_platform_operator-Verified input now recorded_at {p} h =
      let rest = platform_rest parse_date d in
      let asked : AuthenticationInput = record input { required_audience = platform_audience } in
      let worked =
        work-Worked parse_date d asked now (oidc ∷ saml ∷ []) rest
          (answer-done parse_date d (work parse_date d asked now (oidc ∷ saml ∷ []) rest).1 h) in
      let v = worked.verified in
      let (untied, second_factor, kind, assurance, tenants, audience, scopes) =
        platform-parts v.policy v.claims worked.rested in
      let roles = roles_of parse_date d v.claims in
      (
        v,
        untied,
        second_factor,
        kind,
        assurance,
        tenants,
        audience,
        rw scopes (
            all-unique_onto in_catalog [] (platform_permissions_for roles) refl
              (permissions-in_catalog roles)),
      )
