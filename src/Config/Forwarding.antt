-- ===== src/Config/Forwarding.antt =====
-- crates/alknet-core/src/config/forwarding.rs: the policy on forwarding targets.
pub mod Patterns
pub mod Rules
use alknet.Prelude.{
  ℕ, ◌+◌, Bool, true, false, ◌&&◌, ◌||◌, Option, none, some, List, [], ◌∷◌, Text, text, text_eq,
  contains, starts_with, ends_with, any, leb, ltb, length, if◌then◌else◌, ◌==◌,
}
use alknet.Net.{Net, TransportKind, transport_eq}
use alknet.Auth.Identity.{Identity}

pub data ForwardingAction : Type 0 where
  allow deny : ForwardingAction

abbrev pub is_allow : ForwardingAction → Bool
is_allow allow = true
is_allow deny = false

pub data TargetPattern (net : Net) : Type 0 where
  any_target : TargetPattern net
  host : Text → TargetPattern net
  cidr : net.IpNetwork → TargetPattern net
  port_range : Text → ℕ → ℕ → TargetPattern net
  alknet_prefix : TargetPattern net

-- `pattern.find('*')`: what stands before and after the first star, where there is one.
unfoldable pub around_star : Text → Option (Text × Text)
around_star [] = none
around_star (c ∷ pattern) =
    let rest = around_star pattern in
    if c == 42
    then some ([], pattern)
    else elim rest [ some (before, after) ↦ some (c ∷ before, after) | none ↦ none ]

unfoldable pub match_host_pattern : Text → Text → Bool
match_host_pattern pattern target =
    if text_eq pattern target then true else elim (around_star pattern) [
      | some (before, after) ↦
          starts_with before target
          && (ends_with after target && leb (length before + length after) (length target))
      | none ↦ false
    ]

pub record ForwardingRule (net : Net) : Type 0 where
  pub target : TargetPattern net
  pub action : ForwardingAction
  pub principals : List Text
  pub transports : List TransportKind

pub record ForwardingPolicy (net : Net) : Type 0 where
  pub fallback : ForwardingAction
  pub rules : List (ForwardingRule net)

abbrev pub none_listed : {A : Type 0} → List A → Bool
none_listed [] = true
none_listed (_ ∷ _) = false

unfoldable pub match_cidr : (net : Net) → net.IpNetwork → Text → Bool
match_cidr net network target = elim (net.parse_ip target) [
  | none ↦ false
  | some addr ↦ net.network_contains network addr
]

module _ {net : Net} where
  unfoldable pub matches : TargetPattern net → Text → ℕ → Bool
  unfolding match_cidr match_host_pattern
  matches any_target target port = true
  matches (host pattern) target port = match_host_pattern pattern target
  matches (cidr network) target port = match_cidr net network target
  matches (port_range pattern start end) target port =
      match_host_pattern pattern target && (leb start port && ltb port end)
  matches alknet_prefix target port = starts_with (text "alknet-") target

  unfoldable pub matches_principal : ForwardingRule net → Identity → Bool
  matches_principal rule identity =
      if none_listed rule.principals
      then true
      else any (λ p. text_eq p identity.id || contains identity.scopes p) rule.principals

  unfoldable pub matches_transport : ForwardingRule net → TransportKind → Bool
  matches_transport rule transport =
      if none_listed rule.transports
      then true
      else any (λ t. transport_eq t transport) rule.transports

  -- The condition under which a rule decides.
  unfoldable pub applies : ForwardingRule net → Text → ℕ → Identity → TransportKind → Bool
  applies rule target port identity transport =
      matches rule.target target port
      && (matches_principal rule identity && matches_transport rule transport)

  check_rules :
      List (ForwardingRule net) → ForwardingAction → Text → ℕ → Identity → TransportKind → Bool
  unfolding applies
  check_rules [] fallback target port identity transport = is_allow fallback
  check_rules (rule ∷ rules) fallback target port identity transport =
      let rest = check_rules rules fallback target port identity transport in
      if applies rule target port identity transport then is_allow rule.action else rest

  unfoldable pub check : ForwardingPolicy net → Text → ℕ → Identity → TransportKind → Bool
  unfolding check_rules
  check policy = check_rules policy.rules policy.fallback

  abbrev pub allow_all : ForwardingPolicy net
  allow_all = record { fallback = allow; rules = [] }

  abbrev pub deny_all : ForwardingPolicy net
  deny_all = record { fallback = deny; rules = [] }
