-- ===== src/Call/Tests.antt =====
-- The theorems on the call protocol at concrete inputs. A JSON value is a number here, and its text
-- the fields one after the other.
use alknet.Prelude.{
  ℕ, ◌+◌, ◌≡◌, ◌↔◌, refl, inl, inr, true, false, Option, none, some, List, [], ◌∷◌, ◌++◌, Text,
  text, Result, ok, err, length, take, drop, take-append, drop-append, arith, contains, text_eq,
}
use alknet.Prelude.HashMap
use alknet.Prelude.HashMap.Sizes.{IsDistinct-new, IsDistinct-insert}
use alknet.Auth.Identity.{Identity}
use alknet.Call.Access.{AccessControl, OperationSpec, query, check, has_restrictions}
use alknet.Call.Access.Laws.{Grants, check-iff_Grants}
use alknet.Call.Envelope.{EventEnvelope, JsonCodec, RoundTrips, CallError, response_ok}
use alknet.Call.Frame.{Read, bytes, frame, encode, read_frames}
use alknet.Call.Frame.Stream.{Delivers, encode_all, read_frames-encode_all}
use alknet.Call.Pending.{PendingEntry, call, subscribe, PendingRequestMap, sweep_expired, len}
use alknet.Call.Pending.Laws.{sweep_expired-exact, IsDue}
use alknet.Call.Registry.{
  OperationContext, Handler, OperationRegistry, lookup, invoke, build, forbidden,
}
use alknet.Call.Registry.Laws.{MayInvoke, invoke_refused}

-- An envelope with no type, a one-byte id and a number: its text is the two numbers.
abbrev pub event : ℕ → ℕ → EventEnvelope ℕ
event id payload = record { event_type = []; id = id ∷ []; payload = payload }

abbrev to_list : EventEnvelope ℕ → List ℕ
to_list e = e.payload ∷ length e.event_type ∷ (e.event_type ++ e.id)

abbrev from_list : List ℕ → Result (EventEnvelope ℕ) Text
from_list (payload ∷ n ∷ rest) =
    ok (record { event_type = take n rest; id = drop n rest; payload = payload })
from_list _ = err (text "EOF")

abbrev pub json : JsonCodec ℕ
json = record { to_vec = to_list; from_slice = from_list }

pub json-RoundTrips : RoundTrips json
json-RoundTrips = record {
  from_slice-to_vec = λ e. rw (take-append e.event_type e.id, drop-append e.event_type e.id) refl;
}

-- Two frames in three reads, cut inside the first length and inside the second body.
abbrev pub reads : List Read
reads =
    bytes (0 ∷ 0 ∷ [])
    ∷ bytes (0 ∷ 3 ∷ 8 ∷ 0 ∷ 7 ∷ 0 ∷ 0 ∷ 0 ∷ 3 ∷ 6 ∷ [])
    ∷ bytes (0 ∷ 5 ∷ [])
    ∷ []

pub reads-Delivers : Delivers reads (encode_all json (event 7 8 ∷ event 5 6 ∷ []))
unfolding encode
reads-Delivers = (_, refl, (_, refl, (_, refl, refl)))

read_frames-encode_all_example :
    (read_frames json 2 [] reads).0 ≡ frame (event 7 8) ∷ frame (event 5 6) ∷ []
read_frames-encode_all_example =
    read_frames-encode_all json json-RoundTrips (event 7 8 ∷ event 5 6 ∷ []) reads
      (omega arith, (omega arith, tt)) reads-Delivers

abbrev waiting : PendingRequestMap
waiting = record {
  pending =
      HashMap.insert (HashMap.insert HashMap.new (text "a") (call 0 5)) (text "b")
        (subscribe 1 none);
}

sweep_expired-exact_example :
    ((q : Text) (v : PendingEntry)
      → (HashMap.get (sweep_expired waiting 9).1.pending q ≡ some v)
        ↔ ((HashMap.get waiting.pending q ≡ some v) × (IsDue 9 v → ⊥)))
    × ((sweep_expired waiting 9).0 + len (sweep_expired waiting 9).1 ≡ len waiting)
sweep_expired-exact_example = sweep_expired-exact waiting 9 (
    IsDistinct-insert (HashMap.insert HashMap.new (text "a") (call 0 5)) (text "b")
      (subscribe 1 none) (IsDistinct-insert HashMap.new (text "a") (call 0 5) IsDistinct-new))

abbrev first_answer : Result ℕ CallError
first_answer = ok 1

abbrev second_answer : Result ℕ CallError
second_answer = ok 2

abbrev admin_only : AccessControl
admin_only = record {
  required_scopes = text "admin" ∷ [];
  required_scopes_any = none;
  resource_type = none;
  resource_action = none;
}

abbrev open_to_all : AccessControl
open_to_all = record {
  required_scopes = [];
  required_scopes_any = none;
  resource_type = none;
  resource_action = none;
}

abbrev root : Identity
root = record { id = text "root"; scopes = text "admin" ∷ []; resources = HashMap.new }

check-iff_Grants_example : (check admin_only root ≡ true) ↔ Grants admin_only root
check-iff_Grants_example = check-iff_Grants admin_only root

abbrev spec_named : Text → AccessControl → OperationSpec ℕ
spec_named name access = record {
  name = name;
  namespace = [];
  op_type = query;
  input_schema = 0;
  output_schema = 0;
  access_control = access;
}

abbrev doubles : Handler ℕ ℕ
doubles input context = response_ok context.request_id (input + input)

abbrev ops : List (OperationSpec ℕ × Handler ℕ ℕ)
ops =
    (spec_named (text "/a") open_to_all, doubles)
    ∷ (spec_named (text "/b") admin_only, doubles)
    ∷ []

abbrev empty_registry : OperationRegistry ℕ ℕ
empty_registry = record { operations = HashMap.new }

abbrev registry : OperationRegistry ℕ ℕ
registry = build ops empty_registry

abbrev context_of : Option Identity → OperationContext ℕ ℕ
context_of identity = record {
  request_id = text "r";
  parent_request_id = none;
  identity = identity;
  metadata = HashMap.new;
  env = 0;
  trusted = false;
}

found_b : lookup registry (text "/b") ≡ some (spec_named (text "/b") admin_only, doubles)
unfolding build lookup HashMap.get HashMap.insert
found_b = refl

root_grants : check admin_only root ≡ true
unfolding check contains text_eq
root_grants = refl

anonymous_may_not : MayInvoke admin_only (context_of none) → ⊥
unfolding has_restrictions
anonymous_may_not (inl trusted) = cc
anonymous_may_not (inr (inl (i, known, grants))) = cc
anonymous_may_not (inr (inr (anonymous, free))) = cc

invoke_refused_example :
    (message : Text) × (invoke registry (text "/b") 21 (context_of none)
      ≡ forbidden (text "r") message)
invoke_refused_example =
    invoke_refused registry (text "/b") 21 (context_of none) (spec_named (text "/b") admin_only)
      doubles found_b anonymous_may_not
