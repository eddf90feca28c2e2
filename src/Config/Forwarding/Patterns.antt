-- ===== src/Config/Forwarding/Patterns.antt =====
-- Which hosts a pattern matches.
use alknet.Prelude.{
  ◌+◌, ◌≤◌, ◌≡◌, refl, sym, ap, ◌∙◌, ◌↔◌, inl, inr, true, ◌&&◌, none, some, [], ◌∷◌, ◌++◌, Text,
  text_eq, text_eq_iff, starts_with, starts_with-append, ends_with, leb, length, arith,
  length-append, append_assoc, Bool-cases, leb→le,
}
use alknet.Prelude.Affix.{starts_with_split, ends_with_split, ends_with-append, overlap}
use alknet.Prelude.Split.{lacks}
use alknet.Config.Forwarding.{around_star, match_host_pattern}

around_star-append :
    (before after : Text)
    → lacks 42 before ≡ true
    → around_star (before ++ 42 ∷ after) ≡ some (before, after)
unfolding around_star
around_star-append [] after h = refl
around_star-append (c ∷ before) after h =
    let rest = around_star-append before after (ground arith) in ground arith

around_star_of_lacks : (s : Text) → lacks 42 s ≡ true → around_star s ≡ none
unfolding around_star
around_star_of_lacks [] h = refl
around_star_of_lacks (c ∷ s) h = let rest = around_star_of_lacks s (ground arith) in ground arith

-- The text begins with the first part and ends with the second, without sharing a byte.
abbrev pub Encloses : Text → Text → Text → Type 0
Encloses before after target = (middle : Text) × (target ≡ before ++ (middle ++ after))

enclosed :
    (before after target : Text)
    → starts_with before target ≡ true
    → ends_with after target ≡ true
    → length before + length after ≤ length target
    → Encloses before after target
enclosed before after target s e h =
    let (r, front) = starts_with_split before target s in
    let (a, back) = ends_with_split after target e in
    let (m, split) =
      overlap before r a after (sym front ∙ back)
        (omega (arith, ap length back, length-append a after, h)) in
    (m, back ∙ ap (λ q. q ++ after) split ∙ append_assoc before m after)

Encloses-tests :
    (before after target : Text)
    → Encloses before after target
    → (starts_with before target
        && (ends_with after target && leb (length before + length after) (length target)))
      ≡ true
Encloses-tests before after target (m, e) = rw e (
    ground (
      arith,
      starts_with-append before (m ++ after),
      ends_with_of before m after,
      length-append before (m ++ after),
      length-append m after,
    ))
  where
    ends_with_of : (x y z : Text) → ends_with z (x ++ (y ++ z)) ≡ true
    ends_with_of x y z = rw (sym (append_assoc x y z)) (ends_with-append (x ++ y) z)

-- A pattern with a star matches exactly the targets that begin with what stands before its first
-- star and end with what stands after it, the two not overlapping; a pattern without a star
-- matches itself alone.
pub match_host_pattern_iff :
    ((before after target : Text)
      → lacks 42 before ≡ true
      → (match_host_pattern (before ++ 42 ∷ after) target ≡ true) ↔ Encloses before after target)
    × ((pattern target : Text)
        → lacks 42 pattern ≡ true
        → (match_host_pattern pattern target ≡ true) ↔ (pattern ≡ target))
unfolding match_host_pattern
match_host_pattern_iff = (starred, starless)
  where
    starred :
        (before after target : Text)
        → lacks 42 before ≡ true
        → (match_host_pattern (before ++ 42 ∷ after) target ≡ true) ↔ Encloses before after target
    starred before after target free =
        let found = around_star-append before after free in
        (
          λ h. elim (Bool-cases (text_eq (before ++ 42 ∷ after) target)) [
            | inl same ↦ (42 ∷ [], sym ((text_eq_iff (before ++ 42 ∷ after) target).0 same))
            | inr other ↦
                enclosed before after target (ground arith) (ground arith)
                  (leb→le _ _ (ground arith))
          ],
          λ h. let tests = Encloses-tests before after target h in ground arith,
        )

    starless :
        (pattern target : Text)
        → lacks 42 pattern ≡ true
        → (match_host_pattern pattern target ≡ true) ↔ (pattern ≡ target)
    starless pattern target free =
        let missing = around_star_of_lacks pattern free in
        (
          λ h. (text_eq_iff pattern target).0 (ground arith),
          λ e. let same = (text_eq_iff pattern target).1 e in ground arith,
        )
