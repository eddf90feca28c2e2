-- ===== src/Server/RateLimit/Laws.antt =====
-- The count of an address is the number of its connections, in every sequence of events.
use alknet.Prelude.{
  ℕ, zero, suc, ◌+◌, ◌-◌, ◌≤◌, ◌<◌, ◌≡◌, refl, ◌∙◌, Bool, true, List, [], ◌∷◌, Text, text_eq,
  text_eq_iff, ltb, if◌then◌else◌, ◌==◌, arith, Option-cases, inl, inr,
}
use alknet.Prelude.HashMap
use alknet.Prelude.HashMap.{HashMap}
use alknet.Prelude.HashMap.Laws.{get-insert, get-remove, get-new}
use alknet.Server.RateLimit.{
  ConnectionRateLimiter, new, count, check, on_connect, on_disconnect, AuthAttemptLimiter,
  new_attempts, may_attempt, on_failure,
}

-- What happens to the limiter: a connection is tried, which is counted where the check lets it in,
-- or one that was let in ends.
pub data Event : Type 0 where
  arrives leaves : Text → Event

abbrev pub step : ConnectionRateLimiter → Event → ConnectionRateLimiter
step l (arrives ip) = if check l ip then on_connect l ip else l
step l (leaves ip) = on_disconnect l ip

abbrev pub run : ConnectionRateLimiter → List Event → ConnectionRateLimiter
run l [] = l
run l (e ∷ es) = run (step l e) es

-- The number of connections that an address has, counted without a table; the limit is the first
-- argument, and zero for none.
abbrev pub admits : ℕ → ℕ → Bool
admits limit n = if limit == 0 then true else ltb n limit

abbrev pub spec_step : ℕ → Text → ℕ → Event → ℕ
spec_step limit ip n (arrives q) = if text_eq q ip then (if admits limit n then n + 1 else n) else n
spec_step limit ip n (leaves q) = if text_eq q ip then n - 1 else n

abbrev pub spec_run : ℕ → Text → ℕ → List Event → ℕ
spec_run limit ip n [] = n
spec_run limit ip n (e ∷ es) = spec_run limit ip (spec_step limit ip n e) es

pub count-on_connect :
    (l : ConnectionRateLimiter) (q ip : Text)
    → count (on_connect l q) ip ≡ (if text_eq q ip then count l ip + 1 else count l ip)
unfolding count on_connect
count-on_connect l q ip = ground (arith, get-insert l.active q ip (count l q + 1), text_eq_iff q ip)

pub count-on_disconnect :
    (l : ConnectionRateLimiter) (q ip : Text)
    → count (on_disconnect l q) ip ≡ (if text_eq q ip then count l ip - 1 else count l ip)
unfolding count on_disconnect
count-on_disconnect l q ip = elim (Option-cases (HashMap.get l.active q)) [
  | inl absent ↦ ground (arith, text_eq_iff q ip)
  | inr (n, there) ↦
      ground (arith, get-insert l.active q ip (n - 1), get-remove l.active q ip, text_eq_iff q ip)
]

pub count-new : (limit : ℕ) (ip : Text) → count (new limit) ip ≡ 0
unfolding count new
count-new limit ip = ground (arith, get-new {V = ℕ} ip)

pub max-on_disconnect :
    (l : ConnectionRateLimiter) (q : Text) → (on_disconnect l q).max_per_ip ≡ l.max_per_ip
unfolding on_disconnect
max-on_disconnect l q = ground arith

max-step : (l : ConnectionRateLimiter) (e : Event) → (step l e).max_per_ip ≡ l.max_per_ip
unfolding on_connect on_disconnect
max-step l (arrives q) = ground arith
max-step l (leaves q) = ground arith

count-step :
    (l : ConnectionRateLimiter) (ip : Text) (e : Event)
    → count (step l e) ip ≡ spec_step l.max_per_ip ip (count l ip) e
unfolding check
count-step l ip (arrives q) = ground (arith, count-on_connect l q ip, text_eq_iff q ip)
count-step l ip (leaves q) = count-on_disconnect l q ip

-- In every sequence of arrivals and departures the table of the limiter counts for each address what
-- counting its own events alone gives: the addresses do not influence one another, an arrival counts
-- where the limit allows it, and a departure takes one off.
pub count-run :
    (es : List Event) (l : ConnectionRateLimiter) (ip : Text)
    → count (run l es) ip ≡ spec_run l.max_per_ip ip (count l ip) es
count-run [] l ip = refl
count-run (e ∷ es) l ip = count-run es (step l e) ip ∙ (rw (max-step l e, count-step l ip e) refl)

max-run : (es : List Event) (l : ConnectionRateLimiter) → (run l es).max_per_ip ≡ l.max_per_ip
max-run [] l = refl
max-run (e ∷ es) l = max-run es (step l e) ∙ max-step l e

count_le-step :
    (l : ConnectionRateLimiter) (ip : Text) (e : Event)
    → 0 < l.max_per_ip
    → count l ip ≤ l.max_per_ip
    → count (step l e) ip ≤ l.max_per_ip
count_le-step l ip (arrives q) h k = ground (arith, count-step l ip (arrives q))
count_le-step l ip (leaves q) h k = ground (arith, count-step l ip (leaves q))

count_le-run :
    (es : List Event) (l : ConnectionRateLimiter) (ip : Text)
    → 0 < l.max_per_ip
    → count l ip ≤ l.max_per_ip
    → count (run l es) ip ≤ l.max_per_ip
count_le-run [] l ip h k = k
count_le-run (e ∷ es) l ip h k =
    let same = max-step l e in
    let next = count_le-step l ip e h k in
    omega (arith, count_le-run es (step l e) ip (omega arith) (omega arith))

-- With a limit other than zero, where each arrival is checked and counted before the next event, no
-- address ever has more connections than the limit.
pub count-run-le :
    (limit : ℕ) (es : List Event) (ip : Text) → 0 < limit → count (run (new limit) es) ip ≤ limit
unfolding new count
count-run-le limit es ip h = count_le-run es (new limit) ip h (ground (arith, get-new {V = ℕ} ip))

-- The failures after several of them.
abbrev pub fail_times : ℕ → AuthAttemptLimiter → AuthAttemptLimiter
fail_times zero l = l
fail_times (suc n) l = fail_times n (on_failure l)

failures-fail_times :
    (n : ℕ) (l : AuthAttemptLimiter)
    → ((fail_times n l).failures ≡ l.failures + n)
      × ((fail_times n l).max_attempts ≡ l.max_attempts)
unfolding on_failure
failures-fail_times zero l = (omega arith, refl)
failures-fail_times (suc n) l =
    let (a, b) = failures-fail_times n (on_failure l) in (omega arith, b)

-- A connection may go on trying after a number of failures exactly if that number is below the
-- limit, or the limit is zero.
pub may_attempt-fail_times :
    (limit n : ℕ) → may_attempt (fail_times n (new_attempts limit)) ≡ admits limit n
unfolding may_attempt new_attempts
may_attempt-fail_times limit n =
    let (a, b) = failures-fail_times n (new_attempts limit) in ground arith
