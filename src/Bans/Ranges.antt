-- ===== src/Bans/Ranges.antt =====
-- `VersionInRange` on ranges that end in a wildcard.
use mathlib.Core.List.{reverse, reverse_aux, reverse-append, reverse-reverse}
use quake_mesh.Base.{
  ◌≡◌, refl, sym, ◌+◌, true, false, [], ◌∷◌, ◌++◌, arith, length, drop, nat_beq_iff,
}
use quake_mesh.Base.Text.{
  Text, codes, text_eq, text_beq, has_prefix, has_suffix, trim_suffix, trim_space,
}
use quake_mesh.Bans.{in_trimmed_range, version_in_range}

has_prefix-append : (s t : Text) → has_prefix (s ++ t) s ≡ true
unfolding has_prefix
has_prefix-append [] t = refl
has_prefix-append (c ∷ s) t = rw ((nat_beq_iff c c).1 refl) (has_prefix-append s t)

drop-append : (s t : Text) → drop (length s) (s ++ t) ≡ t
drop-append [] t = refl
drop-append (c ∷ s) t = drop-append s t

length-reverse_aux : (s a : Text) → length (reverse_aux s a) ≡ length s + length a
length-reverse_aux [] a = omega arith
length-reverse_aux (c ∷ s) a = omega (arith, length-reverse_aux s (c ∷ a))

length-reverse : (s : Text) → length (reverse s) ≡ length s
length-reverse s = omega (arith, length-reverse_aux s [])

has_suffix-append : (p s : Text) → has_suffix (p ++ s) s ≡ true
unfolding has_suffix
has_suffix-append p s = rw (reverse-append p s) (has_prefix-append (reverse s) (reverse p))

-- `TrimSuffix` takes off what was put on.
trim_suffix-append : (p s : Text) → trim_suffix (p ++ s) s ≡ p
unfolding trim_suffix
trim_suffix-append p s =
    rw (has_suffix-append p s, reverse-append p s, sym (length-reverse s))
      (rw (drop-append (reverse s) (reverse p)) (reverse-reverse p))

ends_in_wildcard :
    (p : Text)
    → (text_beq (p ++ codes ".*") [] ≡ false) × (text_beq (p ++ codes ".*") (codes "*") ≡ false)
unfolding text_beq
ends_in_wildcard [] = (refl, refl)
ends_in_wildcard (c ∷ []) = ground arith
ends_in_wildcard (c ∷ d ∷ p) = ground arith

trim_suffix_absent : (p s : Text) → has_suffix p s ≡ false → trim_suffix p s ≡ p
unfolding trim_suffix
trim_suffix_absent p s h = rw h refl

-- A range of the form `p.*`, with no white space around it and `p` not ending in `.x`, holds of the
-- versions that begin with `p`, whatever character follows.
pub version_in_range-wildcard :
    (version p : Text)
    → trim_space (p ++ codes ".*") ≡ p ++ codes ".*"
    → has_suffix p (codes ".x") ≡ false
    → version_in_range version (p ++ codes ".*") ≡ has_prefix version p
unfolding version_in_range in_trimmed_range
version_in_range-wildcard version p tidy plain =
    let range = p ++ codes ".*" in
    rw tidy (
      rw ((ends_in_wildcard p).0, (ends_in_wildcard p).1)
        (rw (has_suffix-append p (codes ".*"), trim_suffix-append p (codes ".*"))
          (rw (trim_suffix_absent p (codes ".x") plain) refl)))
