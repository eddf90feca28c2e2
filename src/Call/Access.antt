-- ===== src/Call/Access.antt =====
-- `AccessControl` of crates/alknet-core/src/call/spec.rs, with the operations' specifications.
pub mod Laws
use alknet.Prelude.{
  ℕ, Bool, true, false, not, ◌||◌, Option, none, some, List, [], ◌∷◌, ◌++◌, Text, text, contains,
  any, is_some, if◌then◌else◌, ◌==◌, split_on,
}
use alknet.Prelude.HashMap
use alknet.Auth.Identity.{Identity}

pub data OperationType : Type 0 where
  query mutation subscription : OperationType

pub record AccessControl : Type 0 where
  pub required_scopes : List Text
  pub required_scopes_any : Option (List Text)
  pub resource_type : Option Text
  pub resource_action : Option Text

pub record OperationSpec (Value : Type 0) : Type 0 where
  pub name : Text
  pub namespace : Text
  pub op_type : OperationType
  pub input_schema : Value
  pub output_schema : Value
  pub access_control : AccessControl

-- The loop over the scopes that are all required.
unfoldable pub has_all : List Text → List Text → Bool
has_all [] scopes = true
has_all (scope ∷ required) scopes =
    let rest = has_all required scopes in if not (contains scopes scope) then false else rest

unfoldable pub has_any : Option (List Text) → List Text → Bool
has_any none scopes = true
has_any (some wanted) scopes = any (λ s. contains scopes s) wanted

abbrev pub action_allowed : Option Text → List Text → Bool
action_allowed none actions = true
action_allowed (some action) actions = contains actions action

unfoldable pub has_resource : Option Text → Option Text → Identity → Bool
has_resource none resource_action identity = true
has_resource (some res_type) resource_action identity =
    elim (HashMap.get identity.resources res_type) [
      | some actions ↦ action_allowed resource_action actions
      | none ↦ false
    ]

unfoldable pub check : AccessControl → Identity → Bool
unfolding has_all has_any has_resource
check access identity =
    if not (has_all access.required_scopes identity.scopes)
    then false
    else if not (has_any access.required_scopes_any identity.scopes)
    then false
    else has_resource access.resource_type access.resource_action identity

abbrev pub is_empty : List Text → Bool
is_empty [] = true
is_empty (_ ∷ _) = false

unfoldable pub has_restrictions : AccessControl → Bool
has_restrictions access =
    not (is_empty access.required_scopes)
    || is_some access.required_scopes_any
    || is_some access.resource_type
