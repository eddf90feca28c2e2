-- ===== src/Config/Forwarding/Rules.antt =====
-- How the rules of a policy decide.
use alknet.Prelude.{
  ℕ, ◌≡◌, refl, inl, inr, Bool, true, false, List, [], ◌∷◌, Text, arith, Bool-cases,
}
use alknet.Net.{Net, TransportKind}
use alknet.Auth.Identity.{Identity}
use alknet.Config.Forwarding.{
  ForwardingAction, is_allow, ForwardingRule, ForwardingPolicy, applies, check_rules, check,
}

-- A request to open a channel.
pub record Request : Type 0 where
  pub target : Text
  pub port : ℕ
  pub identity : Identity
  pub transport : TransportKind

module _ {net : Net} where
  abbrev pub Applies : ForwardingRule net → Request → Bool → Type 0
  Applies rule q b = applies rule q.target q.port q.identity q.transport ≡ b

  -- The action that a list of rules prescribes for a request: that of the first rule that applies,
  -- or the default where none does.
  pub data Prescribes (q : Request) (fallback : ForwardingAction)
      : List (ForwardingRule net) → ForwardingAction → Type 0 where
    by_default : Prescribes q fallback [] fallback
    first :
        {rule : ForwardingRule net} {rules : List (ForwardingRule net)}
        → Applies rule q true
        → Prescribes q fallback (rule ∷ rules) rule.action
    skip :
        {rule : ForwardingRule net} {rules : List (ForwardingRule net)} {action : ForwardingAction}
        → Applies rule q false
        → Prescribes q fallback rules action
        → Prescribes q fallback (rule ∷ rules) action

  prescribed :
      (q : Request) (fallback : ForwardingAction) (rules : List (ForwardingRule net))
      → (action : ForwardingAction) × Prescribes q fallback rules action
  prescribed q fallback [] = (fallback, by_default)
  prescribed q fallback (rule ∷ rules) =
      elim (Bool-cases (applies rule q.target q.port q.identity q.transport)) [
        | inl fits ↦ (rule.action, first fits)
        | inr fails ↦ let (action, p) = prescribed q fallback rules in (action, skip fails p)
      ]

  check_rules_of_Prescribes :
      (q : Request) (fallback : ForwardingAction) (rules : List (ForwardingRule net))
      (action : ForwardingAction)
      → Prescribes q fallback rules action
      → check_rules rules fallback q.target q.port q.identity q.transport ≡ is_allow action
  unfolding check_rules
  check_rules_of_Prescribes q fallback [] action by_default = refl
  check_rules_of_Prescribes q fallback (rule ∷ rules) action (first fits) = ground arith
  check_rules_of_Prescribes q fallback (rule ∷ rules) action (skip fails p) =
      let rest = check_rules_of_Prescribes q fallback rules action p in ground arith

  -- A policy prescribes an action for every request, that of its first rule that applies to it or
  -- else its default, and the check allows the request exactly if the prescribed action is to allow.
  pub check-Prescribes :
      (policy : ForwardingPolicy net) (q : Request)
      → ((action : ForwardingAction) × Prescribes q policy.fallback policy.rules action)
        × ((action : ForwardingAction)
            → Prescribes q policy.fallback policy.rules action
            → check policy q.target q.port q.identity q.transport ≡ is_allow action)
  unfolding check
  check-Prescribes policy q = (
    prescribed q policy.fallback policy.rules,
    check_rules_of_Prescribes q policy.fallback policy.rules,
  )
