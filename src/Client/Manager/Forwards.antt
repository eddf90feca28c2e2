-- ===== src/Client/Manager/Forwards.antt =====
-- The table of forwards: what the server has granted and not cancelled.
use alknet.Prelude.{
  ℕ, Bool, true, false, not, ◌&&◌, ◌||◌, Bool-cases, List, [], ◌∷◌, Text, text_eq_iff, text_eq_refl,
  text_eq_sym, ◌↔◌, Result, ok, err, ◌≡◌, inl, inr, refl, sym, ap, ◌∙◌, arith,
}
use alknet.Error.{ChannelError}
use alknet.Client.Ssh.{SshClient}
use alknet.Client.Manager.{
  Manager, ForwardRequest, request_eq, member, insert, remove, request_tcpip_forward,
  cancel_tcpip_forward, granted, cancelled,
}

request_eq_iff : (f g : ForwardRequest) → (request_eq f g ≡ true) ↔ (f ≡ g)
request_eq_iff f g = (
  λ h.
      let (addrs, _) = text_eq_iff f.addr g.addr in
      same_fields f g (addrs (ground arith)) (ground arith),
  λ same. ap (request_eq f) (sym same) ∙ ground (arith, text_eq_refl f.addr),
)
  where
    same_fields : (f g : ForwardRequest) → f.addr ≡ g.addr → f.port ≡ g.port → f ≡ g
    same_fields f g a p = cc

request_eq_sym : (f g : ForwardRequest) → request_eq f g ≡ request_eq g f
request_eq_sym f g = ground (arith, text_eq_sym f.addr g.addr)

-- Who equals a request is equal to the same requests.
request_eq-same : (f x g : ForwardRequest) → request_eq f x ≡ true → request_eq f g ≡ request_eq g x
request_eq-same f x g h = ap (λ y. request_eq y g) ((request_eq_iff f x).0 h) ∙ request_eq_sym x g

member-remove :
    (f g : ForwardRequest) (fs : List ForwardRequest)
    → member g (remove f fs) ≡ (not (request_eq f g) && member g fs)
unfolding member remove
member-remove f g [] = ground arith
member-remove f g (x ∷ fs) =
    let rest = member-remove f g fs in
    elim (Bool-cases (request_eq f x)) [
      | inl same ↦ rw same (rest ∙ ground (arith, request_eq-same f x g same))
      | inr other ↦
          rw (other, member) (ground (arith, rest, request_eq-same g x f, request_eq_sym f g))
    ]

member-same :
    (f g : ForwardRequest) (fs : List ForwardRequest)
    → request_eq f g ≡ true
    → member f fs ≡ member g fs
member-same f g fs same = ap (λ y. member y fs) ((request_eq_iff f g).0 same)

member-insert :
    (f g : ForwardRequest) (fs : List ForwardRequest)
    → member g (insert f fs) ≡ (request_eq f g || member g fs)
unfolding member insert
member-insert f g fs = elim (Bool-cases (member f fs)) [
  | inl there ↦ rw there (ground (arith, member-same f g fs))
  | inr absent ↦ rw (absent, member) (ground (arith, request_eq_sym f g))
]

abbrev pub is_ok {ℓ} : {A : Type ℓ} → Result A ChannelError → Bool
is_ok (ok _) = true
is_ok (err _) = false

module _ {ssh : SshClient} (f g : ForwardRequest) (m : Manager ssh) where
  member-granted :
      (outcome : Result ℕ Text)
      → let (answer, after) = granted f m outcome in
        member g after.forwards ≡ (is_ok answer && request_eq f g || member g m.forwards)
  member-granted (err e) = refl
  member-granted (ok port) = member-insert f g m.forwards

  member-cancelled :
      (outcome : Result (Unit {0}) Text)
      → let (answer, after) = cancelled f m outcome in
        member g after.forwards ≡ (not (is_ok answer && request_eq f g) && member g m.forwards)
  member-cancelled (err e) = refl
  member-cancelled (ok done) = member-remove f g m.forwards

module _ {ssh : SshClient} (m : Manager ssh) (addr : Text) (port : ℕ) (g : ForwardRequest) where
  abbrev this : ForwardRequest
  this = record { addr = addr; port = port }

  -- A forward is in the table after a request or a cancellation exactly where the call succeeded and
  -- it is the one requested, or it was there before and is not the one cancelled by a call that
  -- succeeded.
  pub member-forwards :
      (let (granted, after) = request_tcpip_forward m addr port in
        member g after.forwards ≡ (is_ok granted && request_eq this g || member g m.forwards))
      × (let (cancelled, after) = cancel_tcpip_forward m addr port in
          member g after.forwards
          ≡ (not (is_ok cancelled && request_eq this g) && member g m.forwards))
  unfolding request_tcpip_forward cancel_tcpip_forward
  member-forwards = (
    let (outcome, handle) = ssh.tcpip_forward m.handle addr port in
        member-granted this g (record m { handle = handle }) outcome,
    let (outcome, handle) = ssh.cancel_tcpip_forward m.handle addr port in
        member-cancelled this g (record m { handle = handle }) outcome,
  )
