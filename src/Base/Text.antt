-- ===== src/Base/Text.antt =====
-- Go strings and byte slices. A string is the list of its bytes; `Bytes` is a byte slice that the
-- program only measures and copies, given by its length and the big-endian number it spells.
use Prim.Native.Nat.{ℕ, zero, suc, ◌-◌, ◌*◌, ◌/◌, ◌^◌}
use Prim.Native.Char.{code}
use Prim.Native.String.{String}
use mathlib.Core.Path.{◌≡◌, refl}
use mathlib.Core.Logic.{◌↔◌}
use mathlib.Core.Bool.{Bool, true, false, ◌&&◌, ◌||◌}
use mathlib.Core.List.{List, [], ◌∷◌, reverse}
use native.Mathlib.Omega.{arith}
use quake_mesh.Base.Tests.{Eq, ltb, leb, nat_beq, nat_eq, if◌then◌else◌, ◌==◌}
use quake_mesh.Base.Lists.{length, drop}

abbrev pub Text : Type 0
Text = List ℕ

abbrev pub codes : String → Text
codes String.[] = []
codes (String.◌∷◌ c s) = code c ∷ codes s

unfoldable pub text_beq : Text → Text → Bool
text_beq [] [] = true
text_beq [] (d ∷ t) = false
text_beq (c ∷ s) [] = false
text_beq (c ∷ s) (d ∷ t) = nat_beq c d && text_beq s t

text_beq→eq : (s t : Text) → text_beq s t ≡ true → s ≡ t
unfolding text_beq
text_beq→eq [] [] h = refl
text_beq→eq [] (d ∷ t) h = cc
text_beq→eq (c ∷ s) [] h = cc
text_beq→eq (c ∷ s) (d ∷ t) h = ground (arith, text_beq→eq s t)

pub text_beq_refl : (s : Text) → text_beq s s ≡ true
unfolding text_beq
text_beq_refl [] = refl
text_beq_refl (c ∷ s) = ground (arith, text_beq_refl s)

eq→text_beq : (s t : Text) → s ≡ t → text_beq s t ≡ true
eq→text_beq s t h = rw h (text_beq_refl t)

pub text_beq_iff : (s t : Text) → (text_beq s t ≡ true) ↔ (s ≡ t)
text_beq_iff s t = (text_beq→eq s t, eq→text_beq s t)

instance abbrev pub text_eq : Eq Text
text_eq = record { beq = text_beq; beq_iff = text_beq_iff }

-- `strings.HasPrefix`.
unfoldable pub has_prefix : Text → Text → Bool
has_prefix s [] = true
has_prefix [] (d ∷ p) = false
has_prefix (c ∷ s) (d ∷ p) = nat_beq c d && has_prefix s p

-- `strings.HasSuffix`, on the texts read from the right.
unfoldable pub has_suffix : Text → Text → Bool
unfolding has_prefix
has_suffix s p = has_prefix (reverse s) (reverse p)

-- `strings.TrimSuffix`.
unfoldable pub trim_suffix : Text → Text → Text
unfolding has_suffix
trim_suffix s p = if has_suffix s p then reverse (drop (length p) (reverse s)) else s

-- White space, as `unicode.IsSpace` has it: a byte of ASCII, and the UTF-8 of two and of three bytes.
unfoldable pub is_space : ℕ → Bool
is_space c = c == 32 || (leb 9 c && leb c 13)

unfoldable pub is_space_pair : ℕ → ℕ → Bool
is_space_pair c d = c == 194 && (d == 133 || d == 160)

unfoldable pub is_space_triple : ℕ → ℕ → ℕ → Bool
is_space_triple c d e =
    (c == 225 && d == 154 && e == 128)
    || (c == 226 && d == 128 && ((leb 128 e && leb e 138) || e == 168 || e == 169 || e == 175))
    || (c == 226 && d == 129 && e == 159)
    || (c == 227 && d == 128 && e == 128)

-- How many of the first three bytes of a text are a space, and of the last three, read backwards.
unfoldable pub space_ahead : ℕ → ℕ → ℕ → ℕ
unfolding is_space is_space_pair is_space_triple
space_ahead c d e =
    if is_space c
    then 1
    else if is_space_pair c d
    then 2
    else if is_space_triple c d e
    then 3
    else 0

unfoldable pub space_behind : ℕ → ℕ → ℕ → ℕ
unfolding is_space is_space_pair is_space_triple
space_behind e d c =
    if is_space e
    then 1
    else if is_space_pair d e
    then 2
    else if is_space_triple c d e
    then 3
    else 0

abbrev first_byte : Text → ℕ
first_byte [] = 0
first_byte (c ∷ s) = c

abbrev second_byte : Text → ℕ
second_byte [] = 0
second_byte (c ∷ s) = first_byte s

-- Cuts spaces, as `space` tells them, after the next `k` bytes, which belong to one already.
unfoldable pub trim_left : (ℕ → ℕ → ℕ → ℕ) → ℕ → Text → Text
trim_left space k [] = []
trim_left space (suc k) (c ∷ s) = trim_left space k s
trim_left space zero (c ∷ s) =
    let width = space c (first_byte s) (second_byte s) in
    let rest = trim_left space (width - 1) s in if width == 0 then c ∷ s else rest

-- `strings.TrimSpace`.
unfoldable pub trim_space : Text → Text
unfolding trim_left space_ahead space_behind
trim_space s = reverse (trim_left space_behind 0 (reverse (trim_left space_ahead 0 s)))

pub record Bytes : Type 0 where
  pub size : ℕ
  pub value : ℕ

-- `copy(id[:], b)` into a zeroed array of `width` bytes: the array's number.
unfoldable pub copy_into : ℕ → Bytes → ℕ
copy_into width b =
    if ltb b.size width then b.value * 256 ^ (width - b.size) else b.value / 256 ^ (b.size - width)

-- `id[:]`.
abbrev pub slice_of : ℕ → ℕ → Bytes
slice_of width n = record { size = width; value = n }

pub copy_into-slice_of : (width n : ℕ) → copy_into width (slice_of width n) ≡ n
unfolding copy_into
copy_into-slice_of width n =
    let none_left : width - width ≡ 0 = omega arith in rw none_left (ground arith)
