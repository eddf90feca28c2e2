-- ===== src/Call/Pending/Laws.antt =====
-- What the map of pending requests promises.
use alknet.Prelude.{
  ℕ, ◌+◌, ◌≡◌, ◌≢◌, ◌≤◌, ◌↔◌, ap, inl, inr, Bool-cases, Bool, true, false, Option, none, some, [],
  ◌∷◌, Text, text_eq_iff, Result, if◌then◌else◌, arith,
}
use alknet.Prelude.HashMap
use alknet.Prelude.HashMap.{HashMap, IsDistinct}
use alknet.Prelude.HashMap.Laws.{
  get-insert, get-remove, get-remove_all, contains-keys_where, passes,
}
use alknet.Prelude.HashMap.Sweep.{len-remove_all-keys_where}
use alknet.Prelude.{contains as contains_text}
use alknet.Call.Envelope.{CallError}
use alknet.Call.Pending.{
  PendingEntry, call, subscribe, PendingRequestMap, insert_call, remove, resolve_call, len, is_due,
  sweep_expired,
}

abbrev entry : PendingRequestMap → Text → Option PendingEntry
entry m q = HashMap.get m.pending q

-- A call or a subscription is due from its timeout on; a subscription without one never is.
abbrev pub IsDue : ℕ → PendingEntry → Type 0
IsDue now (call tx timeout) = timeout ≤ now
IsDue now (subscribe tx (some timeout)) = timeout ≤ now
IsDue now (subscribe tx none) = ⊥

is_due_iff : (now : ℕ) (v : PendingEntry) → (is_due now v ≡ true) ↔ IsDue now v
is_due_iff now (call tx timeout) = (λ h. ground arith, λ h. ground arith)
is_due_iff now (subscribe tx (some timeout)) = (λ h. ground arith, λ h. ground arith)
is_due_iff now (subscribe tx none) = (λ h. absurd (ground arith), λ h. absurd h)

-- In a map whose keys are distinct a sweep takes out exactly the entries that are due at that time, leaves every other entry as it
-- was, and returns how many it took out.
pub sweep_expired-exact :
    (m : PendingRequestMap) (now : ℕ)
    → IsDistinct m.pending
    → ((q : Text) (v : PendingEntry)
        → (HashMap.get (sweep_expired m now).1.pending q ≡ some v)
          ↔ ((HashMap.get m.pending q ≡ some v) × (IsDue now v → ⊥)))
      × ((sweep_expired m now).0 + len (sweep_expired m now).1 ≡ len m)
unfolding sweep_expired len
sweep_expired-exact m now d = (
  λ q v.
      swept v (HashMap.get m.pending q)
        (contains_text (HashMap.keys_where (is_due now) m.pending) q) _
        (get-remove_all (HashMap.keys_where (is_due now) m.pending) m.pending q)
        (contains-keys_where (is_due now) m.pending q d),
  len-remove_all-keys_where (is_due now) m.pending d,
)
  where
    swept :
        (v : PendingEntry) (o : Option PendingEntry) (c : Bool) (x : Option PendingEntry)
        → x ≡ (if c then none else o)
        → c ≡ passes (is_due now) o
        → (x ≡ some v) ↔ ((o ≡ some v) × (IsDue now v → ⊥))
    swept v none c x e h = (λ k. absurd (ground arith), λ (k, late). absurd (ground arith))
    swept v (some w) c x e h = (
      λ k.
          let same : w ≡ v = ground arith in
          let early : is_due now w ≡ false = ground arith in
          (
            ap some same,
            λ due. let now_due = (is_due_iff now v).1 due in grind (arith, same, early, now_due),
          ),
      λ (k, early). elim (Bool-cases (is_due now v)) [
        | inl due ↦ absurd (early ((is_due_iff now v).0 due))
        | inr late ↦ let same : w ≡ v = ground arith in grind (arith, same, late, e, h)
      ],
    )

-- A registered call is answered once: the first answer reaches its channel, a second finds nothing
-- and delivers nothing, and no other request is touched.
pub resolve_call-insert_call :
    {Value : Type 0} (m : PendingRequestMap) (id : Text) (tx timeout : ℕ)
    (value again : Result Value CallError)
    → ((resolve_call (insert_call m id tx timeout) id value).0 ≡ (true, (tx, value) ∷ []))
      × ((resolve_call (resolve_call (insert_call m id tx timeout) id value).1 id again).0
          ≡ (false, []))
      × ((q : Text)
          → q ≢ id
          → HashMap.get (resolve_call (insert_call m id tx timeout) id value).1.pending q
            ≡ HashMap.get m.pending q)
unfolding resolve_call insert_call remove
resolve_call-insert_call m id tx timeout value again =
    let m' = insert_call m id tx timeout in
    let found : HashMap.get m'.pending id ≡ some (call tx timeout) =
      ground (arith, get-insert m.pending id id (call tx timeout), text_eq_iff id id) in
    let gone : HashMap.get (HashMap.remove m'.pending id) id ≡ none =
      ground (arith, get-remove m'.pending id id, text_eq_iff id id) in
    (
      ground (arith, found),
      ground (arith, found, gone),
      λ q n. ground (
        arith,
        found,
        get-remove m'.pending id q,
        get-insert m.pending id q (call tx timeout),
        text_eq_iff id q,
      ),
    )
