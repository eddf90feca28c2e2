-- ===== src/Server/RateLimit.antt =====
-- crates/alknet-core/src/server/rate_limit.rs: connections per address, and failed logins per
-- connection. An address is the key of the map, in its printed form. A count stays below 2 ^ 64.
pub mod Laws
use alknet.Prelude.{
  ℕ, ◌+◌, ◌-◌, Bool, true, false, Option, none, some, List, [], ◌∷◌, Text, ltb, if◌then◌else◌, ◌==◌,
}
use alknet.Prelude.HashMap
use alknet.Prelude.HashMap.{HashMap}

pub record ConnectionRateLimiter : Type 0 where
  pub max_per_ip : ℕ
  pub active : HashMap ℕ

abbrev pub unwrap_or_zero : Option ℕ → ℕ
unwrap_or_zero none = 0
unwrap_or_zero (some n) = n

unfoldable pub new : ℕ → ConnectionRateLimiter
new max_per_ip = record { max_per_ip = max_per_ip; active = HashMap.new }

unfoldable pub count : ConnectionRateLimiter → Text → ℕ
count l ip = unwrap_or_zero (HashMap.get l.active ip)

unfoldable pub check : ConnectionRateLimiter → Text → Bool
unfolding count
check l ip = if l.max_per_ip == 0 then true else ltb (count l ip) l.max_per_ip

unfoldable pub on_connect : ConnectionRateLimiter → Text → ConnectionRateLimiter
unfolding count
on_connect l ip = record l { active = HashMap.insert l.active ip (count l ip + 1) }

unfoldable pub on_disconnect : ConnectionRateLimiter → Text → ConnectionRateLimiter
on_disconnect l ip = elim (HashMap.get l.active ip) [
  | some n ↦
      if ltb 1 n
      then record l { active = HashMap.insert l.active ip (n - 1) }
      else record l { active = HashMap.remove l.active ip }
  | none ↦ l
]

pub record AuthAttemptLimiter : Type 0 where
  pub max_attempts : ℕ
  pub failures : ℕ

unfoldable pub new_attempts : ℕ → AuthAttemptLimiter
new_attempts max_attempts = record { max_attempts = max_attempts; failures = 0 }

unfoldable pub may_attempt : AuthAttemptLimiter → Bool
may_attempt l = if l.max_attempts == 0 then true else ltb l.failures l.max_attempts

unfoldable pub on_failure : AuthAttemptLimiter → AuthAttemptLimiter
on_failure l = record l { failures = l.failures + 1 }
