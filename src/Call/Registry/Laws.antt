-- ===== src/Call/Registry/Laws.antt =====
-- Who may invoke what.
use alknet.Prelude.{
  ◌≡◌, refl, ◌⊎◌, inl, inr, true, false, Option, none, some, List, [], ◌∷◌, Text, text, text_eq,
  if◌then◌else◌, arith, Bool-cases, Option-cases,
}
use alknet.Prelude.HashMap.Laws.{get-insert}
use alknet.Auth.Identity.{Identity}
use alknet.Call.Access.{OperationSpec, AccessControl, check, has_restrictions}
use alknet.Call.Access.Laws.{Grants, check-iff_Grants}
use alknet.Call.Registry.{
  OperationContext, Handler, OperationRegistry, register, lookup, invoke, guarded, build, forbidden,
}

-- A context may invoke an operation: it is trusted, its identity is granted access, or it has no
-- identity and the operation has no restrictions.
abbrev pub MayInvoke : {Value Env : Type 0} → AccessControl → OperationContext Value Env → Type 0
MayInvoke access context =
    (context.trusted ≡ true)
    ⊎ (((identity : Identity) × (context.identity ≡ some identity) × Grants access identity)
        ⊎ ((context.identity ≡ none) × (has_restrictions access ≡ false)))

module _ {Value Env : Type 0} where
  -- An invocation of a name that is registered runs its handler exactly on the input and the
  -- context, if the context may invoke the operation.
  pub invoke_allowed :
      (r : OperationRegistry Value Env) (name : Text) (input : Value)
      (context : OperationContext Value Env) (spec : OperationSpec Value)
      (handler : Handler Value Env)
      → lookup r name ≡ some (spec, handler)
      → MayInvoke spec.access_control context
      → invoke r name input context ≡ handler input context
  unfolding invoke guarded
  invoke_allowed r name input context spec handler found may =
      rw (found, invoke)
        (elim may [
          | inl trusted ↦ ground arith
          | inr (inl (identity, known, grants)) ↦
              let passes = (check-iff_Grants spec.access_control identity).1 grants in ground arith
          | inr (inr (anonymous, free)) ↦ ground arith
        ])

  -- If the context may not invoke the operation, the handler is not run: the answer is FORBIDDEN
  -- under the context's request id, whatever the handler is.
  pub invoke_refused :
      (r : OperationRegistry Value Env) (name : Text) (input : Value)
      (context : OperationContext Value Env) (spec : OperationSpec Value)
      (handler : Handler Value Env)
      → lookup r name ≡ some (spec, handler)
      → (MayInvoke spec.access_control context → ⊥)
      → (message : Text) × (invoke r name input context ≡ forbidden context.request_id message)
  unfolding invoke guarded
  invoke_refused r name input context spec handler found may_not =
      elim (Bool-cases context.trusted) [
        | inl trusted ↦ absurd (may_not (inl trusted))
        | inr untrusted ↦ elim (Option-cases context.identity) [
          | inl anonymous ↦ elim (Bool-cases (has_restrictions spec.access_control)) [
            | inl bound ↦ (text "authentication required", rw (found, invoke) (ground arith))
            | inr free ↦ absurd (may_not (inr (inr (anonymous, free))))
          ]
          | inr (identity, known) ↦ elim (Bool-cases (check spec.access_control identity)) [
            | inl passes ↦ absurd (
                may_not (
                  inr (
                    inl
                      (identity, known, (check-iff_Grants spec.access_control identity).0 passes))))
            | inr fails ↦ (text "access denied", rw (found, invoke) (ground arith))
          ]
        ]
      ]

-- The last registration of a name in a list of them.
abbrev pub last_of :
    {Value Env : Type 0}
    → Text
    → List (OperationSpec Value × Handler Value Env)
    → Option (OperationSpec Value × Handler Value Env)
    → Option (OperationSpec Value × Handler Value Env)
last_of name [] before = before
last_of name ((spec, handler) ∷ more) before =
    last_of name more (if text_eq spec.name name then some (spec, handler) else before)

-- After a sequence of registrations a name finds the last one under that name, or else what the
-- registry had before.
pub lookup-build :
    {Value Env : Type 0} (ops : List (OperationSpec Value × Handler Value Env))
    (r : OperationRegistry Value Env) (name : Text)
    → lookup (build ops r) name ≡ last_of name ops (lookup r name)
unfolding build register lookup
lookup-build [] r name = refl
lookup-build ((spec, handler) ∷ more) r name =
    rw
      (
        lookup-build more (register r spec handler) name,
        get-insert r.operations spec.name name (spec, handler),
      )
      refl
