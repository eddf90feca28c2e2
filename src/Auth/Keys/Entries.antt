-- ===== src/Auth/Keys/Entries.antt =====
-- What the loaders read out of the lines of a file.
use mathlib.Core.List.{Memᴰ}
use mathlib.Core.List.Memᴰ.{head, tail, cases_cons, not-nil}
use alknet.Prelude.{
  ℕ, Result, ok, err, Option, none, some, List, [], ◌∷◌, Text, Run, returned, panicked, ◌≡◌, ◌≢◌,
  ◌↔◌, inl, inr, refl, ap, subst, ◌∙◌,
}
use alknet.Config.AuthPolicy.{PublicKey, CertAuthorityEntry}
use alknet.Error.{ConfigError}
use alknet.Auth.Keys.Load.{
  KeySource, resolve_bytes, lines, load, all_read, load_public_keys, load_cert_authority_entries,
  KeyCrates, parse_line, read_lines, push_item, push_line, key_of, entry_of,
}

module _ {PrivateKey : Type 0} (crates : KeyCrates PrivateKey) {A : Type 0}
    (item_of : PublicKey × List Text → Option A) where
  -- A line whose key and options make the item.
  abbrev pub Makes : A → List Text → Type 0
  Makes a lines =
      (line : Text) × Memᴰ line lines
      × ((parsed : PublicKey × List Text) × (parse_line crates line ≡ returned (some parsed))
          × (item_of parsed ≡ some a))

  abbrev HasPanic : List Text → Type 0
  HasPanic lines = (line : Text) × Memᴰ line lines × (parse_line crates line ≡ panicked)

  abbrev Exact : List Text → Run (List A) → Type 0
  Exact lines panicked = HasPanic lines
  Exact lines (returned items) = (a : A) → Memᴰ a items ↔ Makes a lines

  later : {a : A} {line : Text} {rest : List Text} → Makes a rest → Makes a (line ∷ rest)
  later (l, m, made) = (l, tail m, made)

  -- What a line that makes the items `o` adds to those of the later lines.
  push_item-Exact :
      (line : Text) (rest : List Text) (items : List A) (parsed : PublicKey × List Text)
      (o : Option A)
      → parse_line crates line ≡ returned (some parsed)
      → item_of parsed ≡ o
      → Exact rest (returned items)
      → Exact (line ∷ rest) (returned (push_item item_of o items))
  push_item-Exact line rest items parsed none here made exact a = (
    λ m. later ((exact a).0 m),
    λ (l, m, (p, read, makes)). elim (cases_cons m) [
      | inl same ↦ absurd (cc)
      | inr m' ↦ (exact a).1 (l, m', (p, read, makes))
    ],
  )
  push_item-Exact line rest items parsed (some b) here made exact a = (
    λ m. elim (cases_cons m) [
      | inl same ↦ (line, head refl, (parsed, here, cc))
      | inr m' ↦ later ((exact a).0 m')
    ],
    λ (l, m, (p, read, makes)). elim (cases_cons m) [
      | inl same ↦ head (cc)
      | inr m' ↦ tail ((exact a).1 (l, m', (p, read, makes)))
    ],
  )

  push_line-Exact :
      (line : Text) (rest : List Text) (first : Run (Option (PublicKey × List Text)))
      (others : Run (List A))
      → parse_line crates line ≡ first
      → Exact rest others
      → Exact (line ∷ rest) (push_line item_of first others)
  push_line-Exact line rest panicked others here exact = (line, head refl, here)
  push_line-Exact line rest (returned parsed) panicked here (l, m, bad) = (l, tail m, bad)
  push_line-Exact line rest (returned none) (returned items) here exact = λ a. (
    λ m. later ((exact a).0 m),
    λ (l, m, (p, read, makes)). elim (cases_cons m) [
      | inl same ↦ absurd (cc)
      | inr m' ↦ (exact a).1 (l, m', (p, read, makes))
    ],
  )
  push_line-Exact line rest (returned (some parsed)) (returned items) here exact =
      push_item-Exact line rest items parsed (item_of parsed) here refl exact

  read_lines-Exact : (lines : List Text) → Exact lines (read_lines crates item_of lines)
  unfolding read_lines
  read_lines-Exact [] = λ a. (λ m. absurd (not-nil m), λ (line, m, _). absurd (not-nil m))
  read_lines-Exact (line ∷ rest) =
      push_line-Exact line rest (parse_line crates line) (read_lines crates item_of rest) refl
        (read_lines-Exact rest)

  abbrev pub Loads : List Text → Run (Result (List A) ConfigError) → Type 0
  Loads lines panicked = HasPanic lines
  Loads lines (returned (err e)) = ⊥
  Loads lines (returned (ok items)) = (a : A) → Memᴰ a items ↔ Makes a lines

  all_read-Loads :
      (lines : List Text) (items : Run (List A)) → Exact lines items → Loads lines (all_read items)
  all_read-Loads lines panicked bad = bad
  all_read-Loads lines (returned items) exact = exact

  -- A source whose bytes can be read either gives exactly the items that its lines make, or panics,
  -- and then at one of its lines.
  pub load-Loads :
      (source : KeySource) (contents : List ℕ)
      → resolve_bytes crates source ≡ ok contents
      → Loads (lines (crates.lossy contents)) (load crates item_of source)
  load-Loads source contents resolved =
      rw (resolved, load)
        (all_read-Loads _ (read_lines crates item_of (lines (crates.lossy contents)))
          (read_lines-Exact (lines (crates.lossy contents))))

entry_of_iff :
    (p : PublicKey × List Text) (e : CertAuthorityEntry)
    → (entry_of p ≡ some e) ↔ ((p ≡ (e.public_key, e.options)) × (e.options ≢ []))
entry_of_iff (pk, []) e = (λ h. cc, λ (same, some_option). absurd (some_option (cc)))
entry_of_iff (pk, o ∷ options) e = (
  λ h.
      let same : ◌≡◌ {A = CertAuthorityEntry} (record { public_key = pk; options = o ∷ options })
          e =
        cc in
      (
        ap (λ (x : CertAuthorityEntry). (x.public_key, x.options)) same,
        λ empty.
            let clash : o ∷ options ≡ [] =
              ap (λ (x : CertAuthorityEntry). x.options) same ∙ empty in
            absurd (cc),
      ),
  λ (same, _).
      ap (λ (x : PublicKey × List Text). some (record { public_key = x.0; options = x.1 })) same,
)

key_of-some : (p : PublicKey × List Text) (pk : PublicKey) → key_of p ≡ some pk → p.0 ≡ pk
key_of-some (first, options) pk h = cc

-- A line of the file gives this key with these options.
abbrev pub Gives :
    {PrivateKey : Type 0} → KeyCrates PrivateKey → List ℕ → PublicKey → List Text → Type 0
Gives crates contents pk options =
    (line : Text) × Memᴰ line (lines (crates.lossy contents))
    × (parse_line crates line ≡ returned (some (pk, options)))

module _ {PrivateKey : Type 0} (crates : KeyCrates PrivateKey) (source : KeySource)
    (contents : List ℕ) (resolved : resolve_bytes crates source ≡ ok contents) where
  -- Where a source with these contents loads as certificate authorities, its entries are exactly the
  -- keys that some line gives with at least one option, whatever the options are.
  pub load_cert_authority_entries_iff :
      (entries : List CertAuthorityEntry) (e : CertAuthorityEntry)
      → load_cert_authority_entries crates source ≡ returned (ok entries)
      → Memᴰ e entries ↔ (Gives crates contents e.public_key e.options × (e.options ≢ []))
  unfolding load_cert_authority_entries
  load_cert_authority_entries_iff entries e loaded =
      let exact =
        subst (Loads crates entry_of (lines (crates.lossy contents))) loaded
          (load-Loads crates entry_of source contents resolved) in
      (
        λ m.
            let (line, at, (parsed, read, made)) = (exact e).0 m in
            let (same, some_option) = (entry_of_iff parsed e).0 made in
            ((line, at, read ∙ ap (λ p. returned (some p)) same), some_option),
        λ ((line, at, read), some_option).
            (exact e).1 (
              line,
              at,
              ((e.public_key, e.options), read, (entry_of_iff _ e).1 (refl, some_option)),
            ),
      )

  -- Where a source with these contents loads as authorized keys, they are exactly the keys that some
  -- line gives, with any options.
  pub load_public_keys_iff :
      (keys : List PublicKey) (pk : PublicKey)
      → load_public_keys crates source ≡ returned (ok keys)
      → Memᴰ pk keys ↔ ((options : List Text) × Gives crates contents pk options)
  unfolding load_public_keys
  load_public_keys_iff keys pk loaded =
      let exact =
        subst (Loads crates key_of (lines (crates.lossy contents))) loaded
          (load-Loads crates key_of source contents resolved) in
      (
        λ m.
            let (line, at, (parsed, read, made)) = (exact pk).0 m in
            (
              parsed.1,
              (
                line,
                at,
                read ∙ ap (λ k. returned (some (k, parsed.1))) (key_of-some parsed pk made),
              ),
            ),
        λ (options, (line, at, read)). (exact pk).1 (line, at, ((pk, options), read, refl)),
      )
