-- ===== src/Call/Access/Laws.antt =====
-- What the check of access control decides.
use alknet.Prelude.{
  ◌≡◌, refl, sym, ◌↔◌, inl, inr, true, false, not, ◌||◌, Option, none, some, List, [], ◌∷◌, Text,
  text_eq, text_eq_iff, contains, any, is_some, if◌then◌else◌, arith, Bool-cases, subst,
}
use alknet.Prelude.HashMap
use alknet.Auth.Identity.{Identity}
use alknet.Call.Access.{
  AccessControl, has_all, has_any, has_resource, action_allowed, check, has_restrictions, is_empty,
}

-- Every scope of the first list is in the second.
abbrev pub Within : List Text → List Text → Type 0
Within required scopes = (s : Text) → contains required s ≡ true → contains scopes s ≡ true

-- The two lists have a scope in common.
abbrev pub Meets : List Text → List Text → Type 0
Meets wanted scopes = (s : Text) × (contains wanted s ≡ true) × (contains scopes s ≡ true)

abbrev pub MeetsIfAny : Option (List Text) → List Text → Type 0
MeetsIfAny none scopes = Unit
MeetsIfAny (some wanted) scopes = Meets wanted scopes

abbrev pub ActionIn : Option Text → List Text → Type 0
ActionIn none actions = Unit
ActionIn (some action) actions = contains actions action ≡ true

abbrev pub Reaches : Option Text → Option Text → Identity → Type 0
Reaches none action identity = Unit
Reaches (some res_type) action identity =
    (actions : List Text) × (HashMap.get identity.resources res_type ≡ some actions)
    × ActionIn action actions

-- What an operation asks of an identity.
abbrev pub Grants : AccessControl → Identity → Type 0
Grants access identity =
    Within access.required_scopes identity.scopes
    × MeetsIfAny access.required_scopes_any identity.scopes
    × Reaches access.resource_type access.resource_action identity

has_all-Within :
    (required scopes : List Text) → has_all required scopes ≡ true → Within required scopes
unfolding has_all contains
has_all-Within [] scopes h s e = absurd (ground arith)
has_all-Within (r ∷ required) scopes h s e = elim (Bool-cases (text_eq r s)) [
  | inl same ↦ subst (λ q. contains scopes q ≡ true) ((text_eq_iff r s).0 same) (ground arith)
  | inr other ↦ has_all-Within required scopes (ground arith) s (ground arith)
]

Within-has_all :
    (required scopes : List Text) → Within required scopes → has_all required scopes ≡ true
unfolding has_all contains
Within-has_all [] scopes h = refl
Within-has_all (r ∷ required) scopes h =
    let here = h r (ground (arith, text_eq_iff r r)) in
    let rest = Within-has_all required scopes (λ s e. h s (ground arith)) in ground arith

any-Meets :
    (wanted scopes : List Text) → any (λ s. contains scopes s) wanted ≡ true → Meets wanted scopes
unfolding contains
any-Meets [] scopes h = absurd (ground arith)
any-Meets (w ∷ wanted) scopes h = elim (Bool-cases (contains scopes w)) [
  | inl there ↦ (w, ground (arith, text_eq_iff w w), there)
  | inr not_there ↦
      let (s, e, there) = any-Meets wanted scopes (ground arith) in (s, ground arith, there)
]

Meets-any :
    (wanted scopes : List Text) → Meets wanted scopes → any (λ s. contains scopes s) wanted ≡ true
unfolding contains
Meets-any [] scopes (s, e, there) = absurd (ground arith)
Meets-any (w ∷ wanted) scopes (s, e, there) = elim (Bool-cases (text_eq w s)) [
  | inl same ↦
      let h = subst (λ q. contains scopes q ≡ true) (sym ((text_eq_iff w s).0 same)) there in
      ground arith
  | inr other ↦ let rest = Meets-any wanted scopes (s, ground arith, there) in ground arith
]

has_any_iff :
    (o : Option (List Text)) (scopes : List Text) → (has_any o scopes ≡ true) ↔ MeetsIfAny o scopes
unfolding has_any
has_any_iff none scopes = (λ _. tt, λ _. refl)
has_any_iff (some wanted) scopes = (any-Meets wanted scopes, Meets-any wanted scopes)

action_iff :
    (o : Option Text) (actions : List Text) → (action_allowed o actions ≡ true) ↔ ActionIn o actions
action_iff none actions = (λ _. tt, λ _. refl)
action_iff (some a) actions = (λ h. h, λ h. h)

has_resource_iff :
    (t a : Option Text) (identity : Identity)
    → (has_resource t a identity ≡ true) ↔ Reaches t a identity
unfolding has_resource
has_resource_iff none a identity = (λ _. tt, λ _. refl)
has_resource_iff (some t) a identity = reaches (HashMap.get identity.resources t)
  where
    reaches :
        (o : Option (List Text))
        → ◌↔◌
            ((elim o [ some actions ↦ action_allowed a actions | none ↦ false ]) ≡ true)
            ((actions : List Text) × (o ≡ some actions) × ActionIn a actions)
    reaches none = (λ h. absurd (ground arith), λ (x, e, h). absurd (ground arith))
    reaches (some actions) = (
      λ h. (actions, refl, (action_iff a actions).0 h),
      λ (x, e, h). (action_iff a actions).1 (subst (λ l. ActionIn a l) (cc e) h),
    )

-- The check passes exactly for the identities that have every required scope, one of the scopes of
-- which one is required, where there are such, and the required action on the required resource.
pub check-iff_Grants :
    (access : AccessControl) (identity : Identity)
    → (check access identity ≡ true) ↔ Grants access identity
unfolding check
check-iff_Grants access identity =
    let (any_in, any_out) = has_any_iff access.required_scopes_any identity.scopes in
    let (res_in, res_out) = has_resource_iff access.resource_type access.resource_action identity in
    (
      λ h. (
        has_all-Within access.required_scopes identity.scopes (ground arith),
        any_in (ground arith),
        res_in (ground arith),
      ),
      λ (a, b, c).
          let a' = Within-has_all access.required_scopes identity.scopes a in
          let b' = any_out b in let c' = res_out c in ground arith,
    )

-- An operation that asks nothing of an anonymous caller asks nothing of an identity: if there are no
-- restrictions, the check passes for every identity.
pub check_of_unrestricted :
    (access : AccessControl) (identity : Identity)
    → has_restrictions access ≡ false
    → check access identity ≡ true
unfolding check has_restrictions has_all has_any has_resource
check_of_unrestricted access identity h =
    free access.required_scopes access.required_scopes_any access.resource_type h
  where
    free :
        (all_of : List Text) (any_of : Option (List Text)) (res_type : Option Text)
        → (not (is_empty all_of) || is_some any_of || is_some res_type) ≡ false
        → ◌≡◌
            (if not (has_all all_of identity.scopes)
              then false
              else if not (has_any any_of identity.scopes)
              then false
              else has_resource res_type access.resource_action identity)
            true
    free [] none none e = refl
    free [] none (some t) e = cc
    free [] (some l) t e = cc
    free (x ∷ xs) o t e = cc
