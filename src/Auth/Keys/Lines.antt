-- ===== src/Auth/Keys/Lines.antt =====
-- Which lines of an authorized_keys file give a key, and which make the parser panic.
use alknet.Prelude.{
  ℕ, ◌≡◌, ap, sym, ◌∙◌, refl, ◌↔◌, true, false, Option, none, some, List, [], ◌∷◌, ◌++◌, Text,
  split_on, ◌==◌, if◌then◌else◌, returned, panicked, arith, Option-cases, Bool-cases, inl, inr,
}
use alknet.Prelude.Split.{lacks}
use alknet.Auth.Keys.{split_once, split_n, is_options, parse_parts, parse_authorized_keys_line}

split_once-append :
    (sep : ℕ) (s t : Text) → lacks sep s ≡ true → split_once sep (s ++ sep ∷ t) ≡ some (s, t)
unfolding split_once
split_once-append sep [] t h = ground arith
split_once-append sep (c ∷ s) t h =
    let rest = split_once-append sep s t (ground arith) in ground arith

split_once_of_lacks : (sep : ℕ) (s : Text) → lacks sep s ≡ true → split_once sep s ≡ none
unfolding split_once
split_once_of_lacks sep [] h = refl
split_once_of_lacks sep (c ∷ s) h =
    let rest = split_once_of_lacks sep s (ground arith) in ground arith

split_n-four :
    (a b c d : Text)
    → lacks 32 a ≡ true
    → lacks 32 b ≡ true
    → lacks 32 c ≡ true
    → split_n 3 32 (a ++ 32 ∷ (b ++ 32 ∷ (c ++ 32 ∷ d))) ≡ a ∷ b ∷ c ∷ d ∷ []
unfolding split_n
split_n-four a b c d h k l =
    rw
      (
        split_n,
        split_once-append 32 a (b ++ 32 ∷ (c ++ 32 ∷ d)) h,
        split_n,
        split_once-append 32 b (c ++ 32 ∷ d) k,
        split_n,
        split_once-append 32 c d l,
      )
      refl

split_once-some :
    (sep : ℕ) (s before after : Text)
    → split_once sep s ≡ some (before, after)
    → (s ≡ before ++ sep ∷ after) × (lacks sep before ≡ true)
unfolding split_once
split_once-some sep [] before after h = cc
split_once-some sep (c ∷ s) before after h = elim (Bool-cases (c == sep)) [
  | inl here ↦ found here (ground arith)
  | inr other ↦ elim (Option-cases (split_once sep s)) [
    | inl nothing ↦ absurd (ground arith)
    | inr ((a, b), later) ↦
        let (whole, free) = split_once-some sep s a b later in
        further other whole free (ground arith)
  ]
]
  where
    found :
        (c == sep) ≡ true
        → ◌≡◌ {A = Text × Text} ([], s) (before, after)
        → (c ∷ s ≡ before ++ sep ∷ after) × (lacks sep before ≡ true)
    found here same =
        let c_is : c ≡ sep = ground arith in
        (
          ap (λ x. x ∷ s) c_is ∙ ap (λ (p : Text × Text). p.0 ++ sep ∷ p.1) same,
          ap (λ (p : Text × Text). lacks sep p.0) (sym same),
        )

    further :
        {a b : Text}
        → (c == sep) ≡ false
        → s ≡ a ++ sep ∷ b
        → lacks sep a ≡ true
        → ◌≡◌ {A = Text × Text} (c ∷ a, b) (before, after)
        → (c ∷ s ≡ before ++ sep ∷ after) × (lacks sep before ≡ true)
    further {a} {b} other whole free same = (
      ap (λ x. c ∷ x) whole ∙ ap (λ (p : Text × Text). p.0 ++ sep ∷ p.1) same,
      ap (λ (p : Text × Text). lacks sep p.0) (sym same) ∙ ground arith,
    )

split_once-none : (sep : ℕ) (s : Text) → split_once sep s ≡ none → lacks sep s ≡ true
unfolding split_once
split_once-none sep [] h = refl
split_once-none sep (c ∷ s) h = elim (Bool-cases (c == sep)) [
  | inl here ↦ absurd (ground arith)
  | inr other ↦ elim (Option-cases (split_once sep s)) [
    | inl nothing ↦ let rest = split_once-none sep s nothing in ground arith
    | inr ((a, b), later) ↦ absurd (ground arith)
  ]
]

-- A line of two parts is one with a single space.
split_n-two :
    (s first second : Text)
    → split_n 3 32 s ≡ first ∷ second ∷ []
    → (s ≡ first ++ 32 ∷ second) × (lacks 32 first ≡ true) × (lacks 32 second ≡ true)
unfolding split_n
split_n-two s first second h = elim (Option-cases (split_once 32 s)) [
  | inl nothing ↦ absurd (ground arith)
  | inr ((a, b), cut) ↦
      let (whole, free) = split_once-some 32 s a b cut in
      let more : a ∷ split_n 2 32 b ≡ first ∷ second ∷ [] = ground arith in
      elim (Option-cases (split_once 32 b)) [
        | inl nothing ↦
            let parts : a ∷ b ∷ [] ≡ first ∷ second ∷ [] = ground arith in
            let heads : a ≡ first = cc in
            let tails : b ≡ second = cc in
            (
              whole ∙ ap (λ x. x ++ 32 ∷ b) heads ∙ ap (λ x. first ++ 32 ∷ x) tails,
              ap (lacks 32) (sym heads) ∙ free,
              ap (lacks 32) (sym tails) ∙ split_once-none 32 b nothing,
            )
        | inr ((x, y), again) ↦ elim (Option-cases (split_once 32 y)) [
          | inl nothing ↦
              let parts : a ∷ x ∷ y ∷ [] ≡ first ∷ second ∷ [] = ground arith in absurd (cc)
          | inr ((u, v), third) ↦
              let parts : a ∷ x ∷ u ∷ v ∷ [] ≡ first ∷ second ∷ [] = ground arith in absurd (cc)
        ]
      ]
]

two-split_n :
    (first second : Text)
    → lacks 32 first ≡ true
    → lacks 32 second ≡ true
    → split_n 3 32 (first ++ 32 ∷ second) ≡ first ∷ second ∷ []
unfolding split_n
two-split_n first second h k =
    rw (split_n, split_once-append 32 first second h, split_n, split_once_of_lacks 32 second k) refl

-- Options do not begin as a comment does.
is_options-comment : (s : Text) → is_options (b'#' ∷ s) ≡ false
unfolding is_options
is_options-comment s = refl

no_text : (s t : Text) → [] ≡ s ++ 32 ∷ t → ⊥
no_text [] t h = cc
no_text (c ∷ s) t h = cc

is_options-nil : is_options [] ≡ false
unfolding is_options
is_options-nil = refl

not_comment :
    (c : ℕ) (t options rest : Text)
    → c ∷ t ≡ options ++ 32 ∷ rest
    → is_options options ≡ true
    → (c == b'#') ≡ false
not_comment c t [] rest whole opts = absurd (ground (arith, is_options-nil))
not_comment c t (o ∷ options) rest whole opts = elim (Bool-cases (c == b'#')) [
  | inr other ↦ other
  | inl comment ↦
      let first : c ≡ o = cc in
      let hash : c ≡ b'#' = ground arith in
      let opts' : is_options (b'#' ∷ options) ≡ true =
        ap (λ x. is_options (x ∷ options)) (sym hash ∙ first) ∙ opts in
      absurd (ground (arith, is_options-comment options))
]

-- A line is options and one more word, with one space between them.
abbrev pub Joins : Text → Text → Text → Type 0
Joins line options rest =
    (line ≡ options ++ 32 ∷ rest)
    × (lacks 32 options ≡ true)
    × (lacks 32 rest ≡ true)
    × (is_options options ≡ true)

module _ {PublicKey : Type 0} (parse_base64 : Text → Option PublicKey) where
  -- The parts make the parser panic exactly if there are two, the first of them options.
  parse_parts-panicked_iff :
      (parts : List Text)
      → (parse_parts parse_base64 parts ≡ panicked) ↔ (
          (first : Text) × (second : Text) × (parts ≡ first ∷ second ∷ [])
          × (is_options first ≡ true))
  unfolding parse_parts
  parse_parts-panicked_iff [] = (λ e. absurd (ground arith), λ (x, y, e, o). cc)
  parse_parts-panicked_iff (x ∷ []) = (λ e. absurd (ground arith), λ (y, z, e, o). cc)
  parse_parts-panicked_iff (x ∷ y ∷ []) =
      (λ e. (x, y, refl, two x y e), λ (z, w, e, o). let same : x ≡ z = cc in ground arith)
    where
      two : (x y : Text) → parse_parts parse_base64 (x ∷ y ∷ []) ≡ panicked → is_options x ≡ true
      two x y e = elim (Bool-cases (is_options x)) [
        | inl o ↦ o
        | inr n ↦ elim (Option-cases (parse_base64 y)) [
          | inl bad ↦ absurd (ground arith)
          | inr (pk, good) ↦ absurd (ground arith)
        ]
      ]
  parse_parts-panicked_iff (x ∷ y ∷ z ∷ rest) = (
    λ e. elim (Option-cases (parse_base64 y)) [
      | inl bad ↦ elim (Option-cases (parse_base64 z)) [
        | inl worse ↦ absurd (ground arith)
        | inr (pk, good) ↦ absurd (ground arith)
      ]
      | inr (pk, good) ↦ elim (Option-cases (parse_base64 z)) [
        | inl worse ↦ absurd (ground arith)
        | inr (pk', fine) ↦ absurd (ground arith)
      ]
    ],
    λ (a, b, e, o). cc,
  )

  -- A line of an authorized_keys file makes the parser panic exactly if, trimmed, it is options and
  -- one more word, with a single space between them.
  pub parse_authorized_keys_line-panicked_iff :
      (trim : Text → Text) (line : Text)
      → (parse_authorized_keys_line parse_base64 trim line ≡ panicked)
        ↔ ((options : Text) × (rest : Text) × Joins (trim line) options rest)
  unfolding parse_authorized_keys_line
  parse_authorized_keys_line-panicked_iff trim line = by_line (trim line)
    where
      by_line :
          (t : Text)
          → ((elim t [
            | [] ↦ returned none
            | c ∷ rest ↦
                if c == b'#'
                then returned none
                else parse_parts parse_base64 (split_n 3 b' ' (c ∷ rest))
          ])
              ≡ panicked)
            ↔ ((options : Text) × (rest : Text) × Joins t options rest)
      by_line [] = (
        λ h. absurd (ground arith),
        λ (options, rest, joined). absurd (no_text options rest joined.0),
      )
      by_line (c ∷ t) = (
        λ h. elim (Bool-cases (c == b'#')) [
          | inl comment ↦ absurd (ground arith)
          | inr live ↦
              let panics : parse_parts parse_base64 (split_n 3 32 (c ∷ t)) ≡ panicked =
                ground arith in
              let (first, second, parts, opts) =
                (parse_parts-panicked_iff (split_n 3 32 (c ∷ t))).0 panics in
              let (whole, a, b) = split_n-two (c ∷ t) first second parts in
              (first, second, (whole, a, b, opts))
        ],
        λ (options, rest, joined).
            let (whole, a, b, opts) = joined in
            let parts : split_n 3 32 (c ∷ t) ≡ options ∷ rest ∷ [] =
              ap (split_n 3 32) whole ∙ two-split_n options rest a b in
            let panics =
              (parse_parts-panicked_iff (split_n 3 32 (c ∷ t))).1 (options, rest, parts, opts) in
            let live = not_comment c t options rest whole opts in ground arith,
      )

  -- A line of options, a key type and a key, with anything after them, gives the key with the
  -- options cut at their commas, where no part has a space, the line is no comment and is trimmed,
  -- the options begin as options do, and the key parses.
  pub parse_authorized_keys_line_key :
      (trim : Text → Text) (c : ℕ) (options kind key comment : Text) (pk : PublicKey)
      → trim (c ∷ options ++ 32 ∷ (kind ++ 32 ∷ (key ++ 32 ∷ comment)))
        ≡ c ∷ options ++ 32 ∷ (kind ++ 32 ∷ (key ++ 32 ∷ comment))
      → (c == b'#') ≡ false
      → lacks 32 (c ∷ options) ≡ true
      → lacks 32 kind ≡ true
      → lacks 32 key ≡ true
      → is_options (c ∷ options) ≡ true
      → parse_base64 key ≡ some pk
      → parse_authorized_keys_line parse_base64 trim
          (c ∷ options ++ 32 ∷ (kind ++ 32 ∷ (key ++ 32 ∷ comment)))
        ≡ returned (some (pk, split_on b',' (c ∷ options)))
  unfolding parse_authorized_keys_line parse_parts
  parse_authorized_keys_line_key trim c options kind key comment pk trimmed live a b d is_opt
        parsed =
      rw
        (
          parse_authorized_keys_line,
          trimmed,
          live,
          split_n-four (c ∷ options) kind key comment a b d,
          parse_parts,
          is_opt,
          parsed,
        )
        refl
