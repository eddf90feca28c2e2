-- ===== src/Prelude/Affix.antt =====
-- Prefixes and suffixes of a text.
use alknet.Prelude.{
  ◌≤◌, ◌≡◌, refl, sym, ap, ◌∙◌, true, [], ◌∷◌, ◌++◌, length, arith, Text, starts_with,
  starts_with-append, ends_with,
}
use mathlib.Core.List.{reverse, reverse-append, reverse-reverse}

pub starts_with_split : (p s : Text) → starts_with p s ≡ true → (r : Text) × (s ≡ p ++ r)
starts_with_split [] s h = (s, refl)
starts_with_split (a ∷ p) [] h = cc
starts_with_split (a ∷ p) (b ∷ s) h =
    let (r, e) = starts_with_split p s (ground arith) in let same : a ≡ b = ground arith in (r, cc)

pub ends_with_split : (p s : Text) → ends_with p s ≡ true → (r : Text) × (s ≡ r ++ p)
ends_with_split p s h =
    let (r, e) = starts_with_split (reverse p) (reverse s) h in
    (
      reverse r,
      sym (reverse-reverse s)
          ∙ ap reverse e
          ∙ reverse-append (reverse p) r
          ∙ ap (λ q. reverse r ++ q) (reverse-reverse p),
    )

pub ends_with-append : (r p : Text) → ends_with p (r ++ p) ≡ true
ends_with-append r p = rw (reverse-append r p) (starts_with-append (reverse p) (reverse r))

-- The longer of two beginnings of one text goes on after the shorter.
pub overlap : (p r a q : Text) → p ++ r ≡ a ++ q → length p ≤ length a → (m : Text) × (a ≡ p ++ m)
overlap [] r a q e h = (a, refl)
overlap (x ∷ p) r [] q e h = absurd (omega arith)
overlap (x ∷ p) r (y ∷ a) q e h =
    let (m, e') = overlap p r a q (cc e) (omega arith) in let same : x ≡ y = cc in (m, cc)
