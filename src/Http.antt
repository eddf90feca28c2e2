-- ===== src/Http.antt =====
-- crates/alknet-core/src/http/auth.rs and router.rs: the requests on an HTTP connection. Reading
-- requests and writing responses is axum and hyper; a request is here its Authorization header,
-- where it has one of visible ASCII, and a response its status.
mod Tests
use alknet.Prelude.{
  ℕ, Bool, true, false, Option, none, some, List, [], ◌∷◌, ◌++◌, Text, text, starts_with,
  starts_with-append, drop, drop-append, length, if◌then◌else◌, ◌≡◌, ◌≢◌, ◌↔◌, ◌⊎◌, inl, inr, refl,
  arith, ap, Bool-cases, Option-cases, sym, ◌∙◌,
}
use alknet.Auth.Identity.{Identity, IdentityProvider}

pub data Response : Type 0 where
  unauthorized not_found : Response

-- A request, with the identity that the middleware attaches to it.
pub record Request : Type 0 where
  pub authorization : Option Text
  pub identity_ext : Option Identity

abbrev pub bearer : Text
bearer = text "Bearer "

-- The token of the header, where it is a bearer's.
abbrev pub token_of : Option Text → Option Text
token_of none = none
token_of (some h) = if starts_with bearer h then some (drop 7 h) else none

module _ (provider : IdentityProvider) where
  unfoldable pub auth_middleware : Request → (Request → Response) → Response
  auth_middleware request next = elim (token_of request.authorization) [
    | none ↦ unauthorized
    | some token ↦ elim (provider.resolve_from_token token) [
      | some identity ↦ next (record request { identity_ext = some identity })
      | none ↦ unauthorized
    ]
  ]

  abbrev pub default_404 : Request → Response
  default_404 request = not_found

  -- What the router of `build_router` answers.
  unfoldable pub route : Request → Response
  unfolding auth_middleware
  route request = auth_middleware request default_404

starts_with_split : (p s : Text) → starts_with p s ≡ true → s ≡ p ++ drop (length p) s
starts_with_split [] s h = refl
starts_with_split (a ∷ p) [] h = cc
starts_with_split (a ∷ p) (b ∷ s) h = ground (arith, starts_with_split p s)

-- The header carries a token with which the provider identifies someone.
abbrev pub Authorized : IdentityProvider → Option Text → Type 0
Authorized provider header =
    (token : Text) × (identity : Identity) × (header ≡ some (bearer ++ token))
    × (provider.resolve_from_token token ≡ some identity)

stripped_iff :
    (p h token : Text)
    → ((if starts_with p h then some (drop (length p) h) else none) ≡ some token)
      ↔ (some h ≡ some (p ++ token))
stripped_iff p h token = elim (Bool-cases (starts_with p h)) [
  | inl begins ↦ (
    λ e. ground (arith, starts_with_split p h begins),
    λ e. ground (arith, starts_with-append p token, drop-append p token),
  )
  | inr differs ↦ (λ e. ground arith, λ e. ground (arith, starts_with-append p token))
]

token_of_iff :
    (header : Option Text) (token : Text)
    → (token_of header ≡ some token) ↔ (header ≡ some (bearer ++ token))
token_of_iff none token = (λ h. cc, λ h. cc)
token_of_iff (some h) token = stripped_iff bearer h token

-- The router answers a request with 404 exactly where its header carries the token of someone, and
-- with 401 otherwise.
pub route-iff_Authorized :
    (provider : IdentityProvider) (request : Request)
    → ((route provider request ≡ not_found) ↔ Authorized provider request.authorization)
      × ((route provider request ≡ unauthorized) ⊎ (route provider request ≡ not_found))
unfolding route auth_middleware
route-iff_Authorized provider request = elim (Option-cases (token_of request.authorization)) [
  | inl none_given ↦ (
    (
      λ h. ground arith,
      λ (token, identity, given, known). ground (arith, token_of_iff request.authorization token),
    ),
    ground arith,
  )
  | inr (token, given) ↦ elim (Option-cases (provider.resolve_from_token token)) [
    | inl unknown ↦ (
      (
        λ h. ground arith,
        λ (t, identity, header, known). ground (arith, token_of_iff request.authorization t),
      ),
      ground arith,
    )
    | inr (identity, known) ↦ (
      (
        λ _. (token, identity, (token_of_iff request.authorization token).0 given, known),
        λ _. ground arith,
      ),
      ground arith,
    )
  ]
]
