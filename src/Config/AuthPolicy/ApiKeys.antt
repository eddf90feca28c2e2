-- ===== src/Config/AuthPolicy/ApiKeys.antt =====
-- Which tokens resolve to an identity.
use alknet.Prelude.{
  ℕ, ◌≡◌, inl, inr, true, false, none, some, List, [], ◌∷◌, ◌++◌, Text, text, text_eq_iff,
  starts_with, take, drop, arith, returned, panicked, Option, Option-cases, ◌↔◌, ◌<◌, refl,
  Bool-cases, subst,
}
use alknet.Prelude.HashMap
use alknet.Auth.Identity.{Identity}
use alknet.Config.AuthPolicy.{
  ApiKeyEntry, AuthPolicy, find_entry, may_cut, is_over, resolve_api_key,
}

-- An entry is the first of a list whose prefix begins a text.
pub data FirstFor (part : Text) : List ApiKeyEntry → ApiKeyEntry → Type 0 where
  here :
      {e : ApiKeyEntry} {entries : List ApiKeyEntry}
      → starts_with e.prefix part ≡ true
      → FirstFor part (e ∷ entries) e
  later :
      {d e : ApiKeyEntry} {entries : List ApiKeyEntry}
      → starts_with d.prefix part ≡ false
      → FirstFor part entries e
      → FirstFor part (d ∷ entries) e

find_entry-FirstFor :
    (part : Text) (entries : List ApiKeyEntry) (e : ApiKeyEntry)
    → find_entry part entries ≡ some e
    → FirstFor part entries e
unfolding find_entry
find_entry-FirstFor part [] e h = absurd (ground arith)
find_entry-FirstFor part (d ∷ entries) e h = elim (Bool-cases (starts_with d.prefix part)) [
  | inl begins ↦
      subst (FirstFor part (d ∷ entries)) (ground arith) (here {entries = entries} begins)
  | inr other ↦ later other (find_entry-FirstFor part entries e (ground arith))
]

FirstFor-find_entry :
    (part : Text) (entries : List ApiKeyEntry) (e : ApiKeyEntry)
    → FirstFor part entries e
    → find_entry part entries ≡ some e
unfolding find_entry
FirstFor-find_entry part [] e first = elim first [ ]
FirstFor-find_entry part (d ∷ entries) e (here begins) = ground arith
FirstFor-find_entry part (d ∷ entries) e (later other first) =
    let rest = FirstFor-find_entry part entries e first in ground arith

-- Before the time at which it expires, where it has one.
abbrev pub NotOver : Option ℕ → ℕ → Type 0
NotOver none now = Unit
NotOver (some expires_at) now = now < expires_at

-- A token is one of API keys, and the first entry whose prefix begins its first eight bytes has the
-- hash of the whole token, is not over, and gives the identity.
pub record Resolves (digest : Text → Text) (p : AuthPolicy) (token : Text) (now : ℕ)
    (who : Identity) : Type 0 where
  pub tagged : starts_with (text "alk_") token ≡ true
  pub entry : ApiKeyEntry
  pub first : FirstFor (take 8 token) p.api_keys entry
  pub hashed : entry.hash ≡ text "sha256:" ++ digest token
  pub live : NotOver entry.expires_at now
  pub named : who ≡ record { id = entry.prefix; scopes = entry.scopes; resources = HashMap.new }

is_over_iff :
    (expires_at : Option ℕ) (now : ℕ) → (is_over expires_at now ≡ false) ↔ NotOver expires_at now
is_over_iff none now = (λ h. tt, λ h. refl)
is_over_iff (some at) now = (λ h. ground arith, λ h. ground arith)

-- A token resolves to an identity exactly if it has the prefix of API keys, and the first entry
-- whose prefix begins the token's first eight bytes has the hash of the whole token, has not expired,
-- and gives its prefix and its scopes as the identity: no later entry is tried, and where no entry
-- matches nothing is resolved. The token's eighth byte ends a character; then nothing panics.
pub resolve_api_key_iff :
    (digest : Text → Text) (p : AuthPolicy) (token : Text) (now : ℕ)
    → may_cut (drop 8 token) ≡ true
    → ((resolve_api_key digest p token now ≡ panicked) → ⊥)
      × ((who : Identity)
          → (resolve_api_key digest p token now ≡ returned (some who))
            ↔ Resolves digest p token now who)
unfolding resolve_api_key
resolve_api_key_iff digest p token now cut =
    elim (Option-cases (find_entry (take 8 token) p.api_keys)) [
      | inl nothing ↦ (
        λ h. absurd (ground arith),
        λ who. (
          λ h. absurd (ground arith),
          λ r.
              let found = FirstFor-find_entry (take 8 token) p.api_keys r.entry r.first in
              absurd (ground arith),
        ),
      )
      | inr (e, found) ↦ (
        λ h. absurd (ground arith),
        λ who. (
          λ h. record {
            tagged = ground arith;
            entry = e;
            first = find_entry-FirstFor (take 8 token) p.api_keys e found;
            hashed = (text_eq_iff e.hash (text "sha256:" ++ digest token)).0 (ground arith);
            live = (is_over_iff e.expires_at now).0 (ground arith);
            named = ground arith;
          },
          λ r.
              let tagged = r.tagged in
              let named = r.named in
              let first = FirstFor-find_entry (take 8 token) p.api_keys r.entry r.first in
              let hashed = (text_eq_iff r.entry.hash (text "sha256:" ++ digest token)).1 r.hashed in
              let live = (is_over_iff r.entry.expires_at now).1 r.live in ground arith,
        ),
      )
    ]
