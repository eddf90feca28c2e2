-- ===== src/Call/Registry.antt =====
-- crates/alknet-core/src/call/registry.rs, context.rs and env.rs: the registered operations, and the
-- two ways to invoke one. An `OperationEnv` is a shared handle, whose registry `registry_of` reads.
pub mod Laws
use alknet.Prelude.{
  ℕ, Bool, true, false, not, Option, none, some, List, [], ◌∷◌, ◌++◌, Text, text, if◌then◌else◌,
}
use alknet.Prelude.HashMap
use alknet.Prelude.HashMap.{HashMap}
use alknet.Auth.Identity.{Identity}
use alknet.Call.Access.{OperationSpec, check, has_restrictions}
use alknet.Call.Envelope.{ResponseEnvelope, response_ok, response_err}

pub record OperationContext (Value Env : Type 0) : Type 0 where
  pub request_id : Text
  pub parent_request_id : Option Text
  pub identity : Option Identity
  pub metadata : HashMap Value
  pub env : Env
  pub trusted : Bool

abbrev pub Handler : Type 0 → Type 0 → Type 0
Handler Value Env = Value → OperationContext Value Env → ResponseEnvelope Value

pub record OperationRegistry (Value Env : Type 0) : Type 0 where
  pub operations : HashMap (OperationSpec Value × Handler Value Env)

abbrev pub not_found : {Value : Type 0} → Text → Text → ResponseEnvelope Value
not_found request_id name =
    response_err request_id (text "NOT_FOUND") (text "operation not found: " ++ name) false

abbrev pub forbidden : {Value : Type 0} → Text → Text → ResponseEnvelope Value
forbidden request_id message = response_err request_id (text "FORBIDDEN") message false

-- `OperationEnv` is what the handlers get; the registry is behind an `Arc`.
module _ {Value Env : Type 0} where
  unfoldable pub new : OperationRegistry Value Env
  new = record { operations = HashMap.new }

  unfoldable pub register :
      OperationRegistry Value Env
      → OperationSpec Value
      → Handler Value Env
      → OperationRegistry Value Env
  register r spec handler = record {
    operations = HashMap.insert r.operations spec.name (spec, handler);
  }

  unfoldable pub lookup :
      OperationRegistry Value Env → Text → Option (OperationSpec Value × Handler Value Env)
  lookup r name = HashMap.get r.operations name

  -- The guards of `invoke` on a registered operation, then the handler.
  unfoldable pub guarded :
      OperationSpec Value
      → Handler Value Env
      → Value
      → OperationContext Value Env
      → ResponseEnvelope Value
  guarded spec handler input context =
      if not context.trusted
      then elim context.identity [
        | some identity ↦
            if not (check spec.access_control identity)
            then forbidden context.request_id (text "access denied")
            else handler input context
        | none ↦
            if has_restrictions spec.access_control
            then forbidden context.request_id (text "authentication required")
            else handler input context
      ]
      else handler input context

  unfoldable pub invoke :
      OperationRegistry Value Env
      → Text
      → Value
      → OperationContext Value Env
      → ResponseEnvelope Value
  unfolding lookup guarded
  invoke r name input context = elim (lookup r name) [
    | some (spec, handler) ↦ guarded spec handler input context
    | none ↦ not_found context.request_id name
  ]

  -- `OperationRegistryBuilder`: `with` for each pair in order, then `build`.
  unfoldable pub build :
      List (OperationSpec Value × Handler Value Env)
      → OperationRegistry Value Env
      → OperationRegistry Value Env
  unfolding register
  build [] r = r
  build ((spec, handler) ∷ more) r = build more (register r spec handler)

  -- `OperationEnv::invoke`
  unfoldable pub env_invoke :
      (Env → OperationRegistry Value Env) → Env → Text → Text → Value → ResponseEnvelope Value
  unfolding invoke
  env_invoke registry_of env namespace operation input =
      let name = text "/" ++ (namespace ++ (text "/" ++ operation)) in
      invoke (registry_of env) name input (record {
        request_id = text "env" ++ name;
        parent_request_id = none;
        identity = none;
        metadata = HashMap.new;
        env = env;
        trusted = true;
      })
