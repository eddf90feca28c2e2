-- ===== src/Call/Pending.antt =====
-- crates/alknet-core/src/call/pending.rs: `PendingRequestMap`. A sender is the identifier of its
-- channel; what a method sends is a list of deliveries; `accepts` says which subscriptions' channels
-- have room and a receiver, so that `try_send` succeeds.
pub mod Laws
use alknet.Prelude.{
  ℕ, Bool, true, false, Option, none, some, List, [], ◌∷◌, Text, Result, leb, is_some, length,
  if◌then◌else◌,
}
use alknet.Prelude.HashMap
use alknet.Prelude.HashMap.{HashMap}
use alknet.Call.Envelope.{CallError}

pub data PendingEntry : Type 0 where
  call : ℕ → ℕ → PendingEntry
  subscribe : ℕ → Option ℕ → PendingEntry

pub record PendingRequestMap : Type 0 where
  pub pending : HashMap PendingEntry

-- What was sent, on which channel.
abbrev pub Delivery : Type 0 → Type 0
Delivery Value = ℕ × Result Value CallError

unfoldable pub new : PendingRequestMap
new = record { pending = HashMap.new }

unfoldable pub insert_call : PendingRequestMap → Text → ℕ → ℕ → PendingRequestMap
insert_call m request_id tx timeout = record {
  pending = HashMap.insert m.pending request_id (call tx timeout);
}

unfoldable pub insert_subscribe : PendingRequestMap → Text → ℕ → Option ℕ → PendingRequestMap
insert_subscribe m request_id tx timeout = record {
  pending = HashMap.insert m.pending request_id (subscribe tx timeout);
}

unfoldable pub remove : PendingRequestMap → Text → PendingRequestMap
remove m request_id = record { pending = HashMap.remove m.pending request_id }

module _ {Value : Type 0} where
  unfoldable pub resolve_call :
      PendingRequestMap
      → Text
      → Result Value CallError
      → (Bool × List (Delivery Value)) × PendingRequestMap
  unfolding remove
  resolve_call m request_id value = elim (HashMap.get m.pending request_id) [
    | some (call tx _) ↦ ((true, (tx, value) ∷ []), remove m request_id)
    | some (subscribe _ _) ↦ ((false, []), remove m request_id)
    | none ↦ ((false, []), remove m request_id)
  ]

  unfoldable pub push_subscribe :
      (ℕ → Bool)
      → PendingRequestMap
      → Text
      → Result Value CallError
      → (Bool × List (Delivery Value)) × PendingRequestMap
  push_subscribe accepts m request_id value = elim (HashMap.get m.pending request_id) [
    | some (subscribe tx _) ↦ if accepts tx then ((true, (tx, value) ∷ []), m) else ((false, []), m)
    | some (call _ _) ↦ ((false, []), m)
    | none ↦ ((false, []), m)
  ]

-- `complete_subscribe` and `abort`
unfoldable pub complete_subscribe : PendingRequestMap → Text → Bool × PendingRequestMap
unfolding remove
complete_subscribe m request_id = (is_some (HashMap.get m.pending request_id), remove m request_id)

unfoldable pub abort : PendingRequestMap → Text → Bool × PendingRequestMap
unfolding remove
abort m request_id = (is_some (HashMap.get m.pending request_id), remove m request_id)

unfoldable pub contains : PendingRequestMap → Text → Bool
contains m request_id = HashMap.contains_key m.pending request_id

unfoldable pub len : PendingRequestMap → ℕ
len m = HashMap.len m.pending

-- The test of `sweep_expired`.
abbrev pub is_due : ℕ → PendingEntry → Bool
is_due now (call _ timeout) = leb timeout now
is_due now (subscribe _ (some timeout)) = leb timeout now
is_due now (subscribe _ none) = false

unfoldable pub sweep_expired : PendingRequestMap → ℕ → ℕ × PendingRequestMap
sweep_expired m now =
    let expired = HashMap.keys_where (is_due now) m.pending in
    (length expired, record { pending = HashMap.remove_all expired m.pending })
