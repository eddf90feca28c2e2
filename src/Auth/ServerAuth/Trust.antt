-- ===== src/Auth/ServerAuth/Trust.antt =====
-- Which keys the loaded configuration trusts.
use mathlib.Core.List.{Memᴰ}
use mathlib.Core.List.Memᴰ.{head, tail, cases_cons, not-nil}
use alknet.Prelude.{
  ℕ, true, Option, some, List, [], ◌∷◌, Text, text_eq, text_eq_iff, contains, map, Bool-cases,
  Result, ok, err, Run, returned, panicked, ◌≡◌, ◌↔◌, inl, inr, refl, sym, ap, ◌∙◌, arith,
}
use alknet.Error.{ConfigError}
use alknet.Auth.Keys.Load.{
  KeySource, KeyCrates, resolve_bytes, load_public_keys, load_cert_authority_entries,
}
use alknet.Auth.Keys.Entries.{Gives, load_public_keys_iff}
use alknet.Auth.ServerAuth.{
  ServerAuthConfig, load_or_none, both_loaded, from_keys_and_ca, authenticate_publickey,
}
use alknet.Config.AuthPolicy.{PublicKey, CertAuthorityEntry}

abbrev encodings : List PublicKey → List (List ℕ)
encodings keys = map (λ (k : PublicKey). k.encoded) keys

abbrev HasEncoding : List PublicKey → List ℕ → Type 0
HasEncoding keys encoded = (pk : PublicKey) × Memᴰ pk keys × (pk.encoded ≡ encoded)

contains-iff_HasEncoding :
    (keys : List PublicKey) (encoded : List ℕ)
    → (contains (encodings keys) encoded ≡ true) ↔ HasEncoding keys encoded
unfolding contains
contains-iff_HasEncoding [] encoded = (λ h. cc, λ (pk, m, _). absurd (not-nil m))
contains-iff_HasEncoding (k ∷ keys) encoded =
    let (into, back) = contains-iff_HasEncoding keys encoded in
    (
      λ h. elim (Bool-cases (text_eq k.encoded encoded)) [
        | inl same ↦ (k, head refl, (text_eq_iff k.encoded encoded).0 same)
        | inr other ↦ let (pk, m, e) = into (ground arith) in (pk, tail m, e)
      ],
      λ (pk, m, e). elim (cases_cons m) [
        | inl first ↦ ground (
          arith,
          (text_eq_iff k.encoded encoded).1 (ap (λ (x : PublicKey). x.encoded) (sym first) ∙ e),
        )
        | inr later ↦ ground (arith, back (pk, later, e))
      ],
    )

returned_ok_injective :
    {c d : ServerAuthConfig}
    → ◌≡◌ {A = Run (Result ServerAuthConfig ConfigError)} (returned (ok c)) (returned (ok d))
    → c ≡ d
returned_ok_injective h = cc

accepts_iff :
    (c : ServerAuthConfig) (key : PublicKey)
    → (authenticate_publickey c key ≡ ok tt) ↔ (contains c.encoded_keys key.encoded ≡ true)
unfolding authenticate_publickey
accepts_iff c key = ground arith

module _ {PrivateKey : Type 0} (crates : KeyCrates PrivateKey) (source : KeySource)
    (ca : Option KeySource) (contents : List ℕ)
    (resolved : resolve_bytes crates source ≡ ok contents) where
  loaded_keys :
      (keys : Run (Result (List PublicKey) ConfigError))
      (authorities : Run (Result (List CertAuthorityEntry) ConfigError)) (c : ServerAuthConfig)
      → both_loaded keys authorities ≡ returned (ok c)
      → (ks : List PublicKey) × (keys ≡ returned (ok ks)) × (c.encoded_keys ≡ encodings ks)
  loaded_keys panicked authorities c h = cc
  loaded_keys (returned (err e)) authorities c h = cc
  loaded_keys (returned (ok ks)) panicked c h = cc
  loaded_keys (returned (ok ks)) (returned (err e)) c h = cc
  loaded_keys (returned (ok ks)) (returned (ok cas)) c h =
      (ks, refl, ap (λ (x : ServerAuthConfig). x.encoded_keys) (sym (returned_ok_injective h)))

  -- Where the configuration is loaded with an authorized-keys source of these contents, a key is
  -- accepted exactly where some line gives a key of the same encoding, whatever the options on that
  -- line.
  pub authenticate_publickey_iff :
      (c : ServerAuthConfig) (key : PublicKey)
      → from_keys_and_ca crates (some source) ca ≡ returned (ok c)
      → (authenticate_publickey c key ≡ ok tt) ↔ (
          (pk : PublicKey) × ((options : List Text) × Gives crates contents pk options)
          × (pk.encoded ≡ key.encoded))
  unfolding from_keys_and_ca
  authenticate_publickey_iff c key loaded =
      let (keys, read, encoded) =
        loaded_keys (load_public_keys crates source)
          (load_or_none (load_cert_authority_entries crates) ca) c loaded in
      let given = load_public_keys_iff crates source contents resolved keys in
      let (into, back) = contains-iff_HasEncoding keys key.encoded in
      (
        λ accepted.
            let (pk, m, same) =
              into (
                sym (ap (λ es. contains es key.encoded) encoded)
                ∙ (accepts_iff c key).0 accepted) in
            (pk, (given pk read).0 m, same),
        λ (pk, gives, same).
            (accepts_iff c key).1 (
              ap (λ es. contains es key.encoded) encoded
              ∙ back (pk, (given pk read).1 gives, same)),
      )
