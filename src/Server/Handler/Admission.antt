-- ===== src/Server/Handler/Admission.antt =====
-- The limiter counts the live connections, whatever opens and closes.
use alknet.Prelude.{
  ℕ, zero, suc, ◌+◌, ◌≤◌, ◌<◌, ◌≡◌, refl, ◌∙◌, Bool, true, false, ◌&&◌, Option, none, some, List,
  [], ◌∷◌, Text, text_eq, text_eq_iff, if◌then◌else◌, arith,
}
use alknet.Net.{TransportKind}
use alknet.Server.RateLimit
use alknet.Server.RateLimit.{ConnectionRateLimiter, count, on_connect, on_disconnect}
use alknet.Server.RateLimit.Laws.{
  count-on_connect, count-on_disconnect, count-new, max-on_disconnect,
}
use alknet.Server.Handler.{ServerHandler, new, drop_handler}

-- A server: its limiter, and the handlers of the connections that are alive.
pub record World : Type 0 where
  pub limiter : ConnectionRateLimiter
  pub live : List ServerHandler

pub data Event : Type 0 where
  opens : Option Text → TransportKind → ℕ → Event
  closes : ℕ → Event

-- The handler at a place is dropped, where there is one.
abbrev pub close_at :
    ℕ → List ServerHandler → ConnectionRateLimiter → List ServerHandler × ConnectionRateLimiter
close_at n [] l = ([], l)
close_at zero (h ∷ live) l = (live, drop_handler h l)
close_at (suc n) (h ∷ live) l = let (live', l') = close_at n live l in (h ∷ live', l')

abbrev pub step : World → Event → World
step w (opens ip transport attempts) =
    let (h, l) = new w.limiter ip transport attempts in record { limiter = l; live = h ∷ w.live }
step w (closes n) =
    let (live, l) = close_at n w.live w.limiter in record { limiter = l; live = live }

abbrev pub run : World → List Event → World
run w [] = w
run w (e ∷ es) = run (step w e) es

abbrev pub is_at : Text → Option Text → Bool
is_at ip none = false
is_at ip (some q) = text_eq q ip

-- The live connections that were let in from an address.
abbrev pub connections : Text → List ServerHandler → ℕ
connections ip [] = 0
connections ip (h ∷ live) =
    (if is_at ip h.remote_ip && h.connection_allowed then 1 else 0) + connections ip live

abbrev Counts : Text → World → Type 0
Counts ip w = count w.limiter ip ≡ connections ip w.live

Counts-opens :
    (ip : Text) (l : ConnectionRateLimiter) (live : List ServerHandler) (remote : Option Text)
    (transport : TransportKind) (attempts : ℕ)
    → count l ip ≡ connections ip live
    → count (new l remote transport attempts).1 ip
      ≡ connections ip ((new l remote transport attempts).0 ∷ live)
unfolding new
Counts-opens ip l live none transport attempts h = omega (arith, h)
Counts-opens ip l live (some q) transport attempts h = ground (arith, count-on_connect l q ip)

count-drop_handler :
    (ip : Text) (l : ConnectionRateLimiter) (h : ServerHandler) (rest : ℕ)
    → count l ip ≡ (if is_at ip h.remote_ip && h.connection_allowed then 1 else 0) + rest
    → count (drop_handler h l) ip ≡ rest
unfolding drop_handler
count-drop_handler ip l h rest e = dropped h.remote_ip h.connection_allowed e
  where
    dropped :
        (remote : Option Text) (allowed : Bool)
        → count l ip ≡ (if is_at ip remote && allowed then 1 else 0) + rest
        → ◌≡◌
            (count
              (elim remote [ some q ↦ (if allowed then on_disconnect l q else l) | none ↦ l ])
              ip)
            rest
    dropped none allowed e = ground arith
    dropped (some q) true e = ground (arith, count-on_disconnect l q ip)
    dropped (some q) false e = ground arith

count-close_at :
    (ip : Text) (n extra : ℕ) (live : List ServerHandler) (l : ConnectionRateLimiter)
    → count l ip ≡ extra + connections ip live
    → count (close_at n live l).1 ip ≡ extra + connections ip (close_at n live l).0
count-close_at ip n extra [] l e = e
count-close_at ip zero extra (h ∷ live) l e =
    count-drop_handler ip l h (extra + connections ip live) (omega (arith, e))
count-close_at ip (suc n) extra (h ∷ live) l e =
    let own = if is_at ip h.remote_ip && h.connection_allowed then 1 else 0 in
    let rest = count-close_at ip n (extra + own) live l (omega (arith, e)) in omega (arith, rest)

step-Counts : (ip : Text) (w : World) (e : Event) → Counts ip w → Counts ip (step w e)
step-Counts ip w (opens remote transport attempts) h =
    Counts-opens ip w.limiter w.live remote transport attempts h
step-Counts ip w (closes n) h =
    let next = count-close_at ip n 0 w.live w.limiter (omega (arith, h)) in omega (arith, next)

run-Counts_from : (ip : Text) (es : List Event) (w : World) → Counts ip w → Counts ip (run w es)
run-Counts_from ip [] w h = h
run-Counts_from ip (e ∷ es) w h = run-Counts_from ip es (step w e) (step-Counts ip w e h)

abbrev pub start : ℕ → World
start limit = record { limiter = RateLimit.new limit; live = [] }

-- However connections open and close on a server that starts with none, the limiter's count of each
-- address is at every time the number of the live connections that were let in from it: none is
-- counted twice, none is forgotten, and a refused one takes nothing off when it ends.
pub run-Counts :
    (limit : ℕ) (es : List Event) (ip : Text)
    → count (run (start limit) es).limiter ip ≡ connections ip (run (start limit) es).live
run-Counts limit es ip = run-Counts_from ip es (start limit) (count-new limit ip)

-- The limiter keeps its limit, and an address is not above it.
abbrev Bounded : ℕ → Text → ConnectionRateLimiter → Type 0
Bounded limit ip l = (l.max_per_ip ≡ limit) × (count l ip ≤ limit)

Bounded-new :
    (limit : ℕ) (ip : Text) (l : ConnectionRateLimiter) (remote : Option Text)
    (transport : TransportKind) (attempts : ℕ)
    → 0 < limit
    → Bounded limit ip l
    → Bounded limit ip (new l remote transport attempts).1
unfolding new on_connect RateLimit.check
Bounded-new limit ip l none transport attempts z b = b
Bounded-new limit ip l (some q) transport attempts z (same, below) =
    (ground arith, ground (arith, count-on_connect l q ip, text_eq_iff q ip))

Bounded-drop_handler :
    (limit : ℕ) (ip : Text) (h : ServerHandler) (l : ConnectionRateLimiter)
    → Bounded limit ip l
    → Bounded limit ip (drop_handler h l)
unfolding drop_handler
Bounded-drop_handler limit ip h l (same, below) = dropped h.remote_ip h.connection_allowed
  where
    dropped :
        (remote : Option Text) (allowed : Bool)
        → Bounded limit ip
            (elim remote [ some q ↦ (if allowed then on_disconnect l q else l) | none ↦ l ])
    dropped none allowed = (same, below)
    dropped (some q) true =
        (max-on_disconnect l q ∙ same, ground (arith, count-on_disconnect l q ip))
    dropped (some q) false = (same, below)

Bounded-close_at :
    (limit : ℕ) (ip : Text) (n : ℕ) (live : List ServerHandler) (l : ConnectionRateLimiter)
    → Bounded limit ip l
    → Bounded limit ip (close_at n live l).1
Bounded-close_at limit ip n [] l b = b
Bounded-close_at limit ip zero (h ∷ live) l b = Bounded-drop_handler limit ip h l b
Bounded-close_at limit ip (suc n) (h ∷ live) l b = Bounded-close_at limit ip n live l b

run-Bounded :
    (limit : ℕ) (ip : Text) (es : List Event) (w : World)
    → 0 < limit
    → Bounded limit ip w.limiter
    → Bounded limit ip (run w es).limiter
run-Bounded limit ip [] w z b = b
run-Bounded limit ip (opens remote transport attempts ∷ es) w z b =
    run-Bounded limit ip es (step w (opens remote transport attempts)) z
      (Bounded-new limit ip w.limiter remote transport attempts z b)
run-Bounded limit ip (closes n ∷ es) w z b =
    run-Bounded limit ip es (step w (closes n)) z (Bounded-close_at limit ip n w.live w.limiter b)

-- With a limit other than zero no address ever has more live connections than the limit, where the
-- admission of a connection is not interleaved with another's.
pub connections-run-le :
    (limit : ℕ) (es : List Event) (ip : Text)
    → 0 < limit
    → connections ip (run (start limit) es).live ≤ limit
unfolding RateLimit.new
connections-run-le limit es ip z =
    let (same, below) =
      run-Bounded limit ip es (start limit) z (refl, omega (arith, count-new limit ip)) in
    omega (arith, below, run-Counts limit es ip)
