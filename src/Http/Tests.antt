-- ===== src/Http/Tests.antt =====
-- The theorem on the router at a concrete request.
use alknet.Prelude.{◌≡◌, ◌↔◌, ◌⊎◌, refl, none, some, [], text, text_eq, if◌then◌else◌}
use alknet.Prelude.HashMap
use alknet.Auth.Identity.{Identity, IdentityProvider}
use alknet.Http.{Request, route, Authorized, route-iff_Authorized, unauthorized, not_found}

abbrev ann : Identity
ann = record { id = text "ann"; scopes = []; resources = HashMap.new }

-- Knows one token.
abbrev provider : IdentityProvider
provider = record {
  resolve_from_fingerprint = λ f. none;
  resolve_from_token = λ t. if text_eq t (text "alk_1") then some ann else none;
}

abbrev with_token : Request
with_token = record { authorization = some (text "Bearer alk_1"); identity_ext = none }

abbrev with_password : Request
with_password = record { authorization = some (text "Basic alk_1"); identity_ext = none }

route-iff_Authorized_example :
    ((route provider with_token ≡ not_found) ↔ Authorized provider with_token.authorization)
    × ((route provider with_token ≡ unauthorized) ⊎ (route provider with_token ≡ not_found))
route-iff_Authorized_example = route-iff_Authorized provider with_token

answers_the_known : route provider with_token ≡ not_found
unfolding route text_eq
answers_the_known = refl

refuses_the_others : route provider with_password ≡ unauthorized
unfolding route
refuses_the_others = refl
