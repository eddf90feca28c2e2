-- ===== src/Server/Handler/Login.antt =====
-- Logging in, over any number of attempts.
use alknet.Prelude.{
  ℕ, ◌+◌, ◌≡◌, refl, ◌⊎◌, inl, inr, Bool, true, false, not, Option, some, List, [], ◌∷◌, Text,
  contains, text_eq_iff, is_some, if◌then◌else◌, arith, Bool-cases, Option-cases,
}
use alknet.Auth.Identity.{Identity}
use alknet.Server.RateLimit.{may_attempt, on_failure}
use alknet.Server.RateLimit.Laws.{admits}
use alknet.Server.Handler.{ServerHandler, auth_publickey}

module _ (resolve : Text → Option Identity) where
  -- The answers to the attempts with a list of keys, and the handler after them.
  abbrev pub login : ServerHandler → List Text → List Bool
  login h [] = []
  login h (key ∷ keys) =
      let (accepted, h') = auth_publickey resolve h key in accepted ∷ login h' keys

  abbrev pub after : ServerHandler → List Text → ServerHandler
  after h [] = h
  after h (key ∷ keys) = after (auth_publickey resolve h key).1 keys

  -- The answers by counting: a key is accepted if it resolves and fewer failures than the limit have
  -- come before it; a limit of zero is none.
  abbrev pub spec_login : ℕ → ℕ → List Text → List Bool
  spec_login limit failures [] = []
  spec_login limit failures (key ∷ keys) =
      if not (admits limit failures)
      then false ∷ spec_login limit failures keys
      else if is_some (resolve key)
      then true ∷ spec_login limit failures keys
      else false ∷ spec_login limit (failures + 1) keys

  -- The answers to any sequence of login attempts on a connection are those that counting the failed
  -- ones gives: once the limit is reached no key is accepted any more, an authorized one included,
  -- and a success neither counts nor resets the count.
  pub login-eq-spec_login :
      (keys : List Text) (h : ServerHandler)
      → login h keys ≡ spec_login h.auth_limiter.max_attempts h.auth_limiter.failures keys
  unfolding auth_publickey may_attempt on_failure
  login-eq-spec_login [] h = refl
  login-eq-spec_login (key ∷ keys) h = elim (Bool-cases (may_attempt h.auth_limiter)) [
    | inr barred ↦ ground (arith, login-eq-spec_login keys h)
    | inl free ↦ elim (Option-cases (resolve key)) [
      | inl unknown ↦
          ground (
            arith,
            login-eq-spec_login keys (record h { auth_limiter = on_failure h.auth_limiter }),
          )
      | inr (id, known) ↦
          ground (arith, login-eq-spec_login keys (record h { authenticated_identity = some id }))
    ]
  ]

  -- An identity that a connection has after any attempts is the one that it had before them, or one
  -- that a key among them resolves to.
  pub after-identity :
      (keys : List Text) (h : ServerHandler) (id : Identity)
      → (after h keys).authenticated_identity ≡ some id
      → (h.authenticated_identity ≡ some id)
        ⊎ ((key : Text) × (contains keys key ≡ true) × (resolve key ≡ some id))
  unfolding auth_publickey contains
  after-identity [] h id e = inl e
  after-identity (key ∷ keys) h id e =
      elim (after-identity keys (auth_publickey resolve h key).1 id e) [
        | inr (k, there, known) ↦ inr (k, ground arith, known)
        | inl now ↦ elim (Bool-cases (may_attempt h.auth_limiter)) [
          | inr barred ↦ inl (ground arith)
          | inl free ↦ elim (Option-cases (resolve key)) [
            | inl unknown ↦ inl (ground arith)
            | inr (i, known) ↦ inr (key, ground (arith, text_eq_iff key key), ground arith)
          ]
        ]
      ]
