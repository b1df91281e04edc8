-- ===== src/Common/Text.antt =====
-- The functions of Go's `strings` package that the code calls, on texts as lists of characters.
-- `equal_fold` folds ASCII letters and the two other characters that fold to one, so it is exact
-- when one of the two texts is ASCII, as a scheme, a method or a media type is.
use Prim.Native.Nat.{ℕ, zero, suc, ◌+◌, compare, Ordering}
use Prim.Native.Char.{Char, code}
use Prim.Native.String
use Prim.Native.String.{String}
use mathlib.Core.Path.{◌≡◌, refl, sym, ap, ◌∙◌}
use mathlib.Core.Bool.{Bool, true, false, ◌&&◌, ◌||◌}
use mathlib.Core.Option.{Option, none, some}
use mathlib.Core.List.{List, [], ◌∷◌}
use mathlib.Core.Logic.{inl, inr}
use text.Mathlib.TextEquality.{Char-path}
use text.Mathlib.TextLemmas.{nil-append, cons-append, cons≢nil}
use native.Mathlib.Omega.{arith}
use onyxia_backend.Common.Tests.{Bool-cases, leb, ◌==◌, if◌then◌else◌}

abbrev pub same : ℕ → ℕ → Bool
same a b = elim (compare a b) [ Ordering.eq ↦ true | _ ↦ false ]

infixl 65 ◌++◌
abbrev pub ◌++◌ : String → String → String
s ++ t = String.◌++◌ s t

-- The Kelvin sign and the long s fold to ASCII letters.
unfoldable pub fold_char : ℕ → ℕ
fold_char c =
    if leb b'A' c && leb c b'Z'
    then c + 32
    else if same c 0x212a
    then b'k'
    else if same c 0x17f
    then b's'
    else c

-- `strings.EqualFold`
unfoldable pub equal_fold : String → String → Bool
unfolding fold_char
equal_fold String.[] String.[] = true
equal_fold (String.◌∷◌ c s) (String.◌∷◌ d t) =
    same (fold_char (code c)) (fold_char (code d)) && equal_fold s t
equal_fold _ _ = false

abbrev before : Char → Option (String × String) → Option (String × String)
before c none = none
before c (some (a, b)) = some (String.◌∷◌ c a, b)

-- `strings.Cut` at a separator of one character
unfoldable pub cut : ℕ → String → Option (String × String)
cut sep String.[] = none
cut sep (String.◌∷◌ c s) = if same (code c) sep then some ("", s) else before c (cut sep s)

-- `strings.SplitN` at a separator of one character
unfoldable pub split_n : ℕ → ℕ → String → List String
unfolding cut
split_n sep zero s = []
split_n sep (suc zero) s = s ∷ []
split_n sep (suc (suc n)) s = elim (cut sep s) [
  | none ↦ s ∷ []
  | some (a, b) ↦ a ∷ split_n sep (suc n) b
]

-- `strings.TrimSuffix` and `strings.TrimPrefix` of one character
unfoldable pub trim_suffix : ℕ → String → String
trim_suffix sep String.[] = String.[]
trim_suffix sep (String.◌∷◌ c String.[]) =
    if same (code c) sep then String.[] else String.◌∷◌ c String.[]
trim_suffix sep (String.◌∷◌ c (String.◌∷◌ d s)) = String.◌∷◌ c (trim_suffix sep (String.◌∷◌ d s))

unfoldable pub trim_prefix : ℕ → String → String
trim_prefix sep String.[] = String.[]
trim_prefix sep (String.◌∷◌ c s) = if same (code c) sep then s else String.◌∷◌ c s

-- `strings.HasPrefix`, with what `strings.TrimPrefix` leaves
unfoldable pub after_prefix : (prefix s : String) → Option String
after_prefix String.[] s = some s
after_prefix (String.◌∷◌ c p) String.[] = none
after_prefix (String.◌∷◌ c p) (String.◌∷◌ d s) =
    let rest = after_prefix p s in if same (code c) (code d) then rest else none

-- A text up to its first slash, and from it on
unfoldable pub segment : String → String × String
segment String.[] = ("", "")
segment (String.◌∷◌ c s) =
    let (a, b) = segment s in
    if same (code c) b'/' then ("", String.◌∷◌ c s) else (String.◌∷◌ c a, b)

-- `unicode.IsSpace`
unfoldable pub is_space : ℕ → Bool
is_space c =
    (leb 9 c && leb c 13)
    || same c 32
    || same c 0x85
    || same c 0xa0
    || same c 0x1680
    || (leb 0x2000 c && leb c 0x200a)
    || same c 0x2028
    || same c 0x2029
    || same c 0x202f
    || same c 0x205f
    || same c 0x3000

trim_left : String → String
unfolding is_space
trim_left String.[] = String.[]
trim_left (String.◌∷◌ c s) =
    let rest = trim_left s in if is_space (code c) then rest else String.◌∷◌ c s

trim_right : String → String
unfolding is_space
trim_right String.[] = String.[]
trim_right (String.◌∷◌ c s) =
    let rest = trim_right s in if is_space (code c) && rest == "" then "" else String.◌∷◌ c rest

-- `strings.TrimSpace`
unfoldable pub trim_space : String → String
unfolding trim_left trim_right
trim_space s = trim_right (trim_left s)

pub equal_fold_refl : (s : String) → equal_fold s s ≡ true
unfolding equal_fold
equal_fold_refl String.[] = refl
equal_fold_refl (String.◌∷◌ c s) = ground (arith, equal_fold_refl s)

pub equal_fold_symm : (s t : String) → equal_fold s t ≡ equal_fold t s
unfolding equal_fold
equal_fold_symm String.[] String.[] = refl
equal_fold_symm String.[] (String.◌∷◌ d t) = refl
equal_fold_symm (String.◌∷◌ c s) String.[] = refl
equal_fold_symm (String.◌∷◌ c s) (String.◌∷◌ d t) = ground (arith, equal_fold_symm s t)

-- A text that is a prefix and nothing behind it
pub after_prefix_eq : (p s : String) → after_prefix p s ≡ some "" → s ≡ p
unfolding after_prefix
after_prefix_eq String.[] s h = let whole : s ≡ "" = cc in whole
after_prefix_eq (String.◌∷◌ c p) String.[] h = ground arith
after_prefix_eq (String.◌∷◌ c p) (String.◌∷◌ d s) h = elim (Bool-cases (same (code c) (code d))) [
  | inl e ↦
      let head : d ≡ c = Char-path d c (ground arith) in
      let tail : s ≡ p = after_prefix_eq p s (ground arith) in rw (head, tail) refl
  | inr e ↦ ground arith
]

-- A text that has a prefix is the prefix with what is left behind it.
pub after_prefix-append : (p s rest : String) → after_prefix p s ≡ some rest → s ≡ p ++ rest
unfolding after_prefix
after_prefix-append String.[] s rest h = let whole : s ≡ rest = cc in whole ∙ sym (nil-append rest)
after_prefix-append (String.◌∷◌ c p) String.[] rest h = ground arith
after_prefix-append (String.◌∷◌ c p) (String.◌∷◌ d s) rest h =
    elim (Bool-cases (same (code c) (code d))) [
      | inl e ↦
          let head : d ≡ c = Char-path d c (ground arith) in
          let tail : s ≡ p ++ rest = after_prefix-append p s rest (ground arith) in
          rw (head, tail) (sym (cons-append c p rest))
      | inr e ↦ ground arith
    ]

pub append-after_prefix : (p rest : String) → after_prefix p (p ++ rest) ≡ some rest
unfolding after_prefix
append-after_prefix String.[] rest = ap some (nil-append rest)
append-after_prefix (String.◌∷◌ c p) rest =
    rw (cons-append c p rest) (ground (arith, append-after_prefix p rest))

pub segment-append : (s : String) → s ≡ (segment s).0 ++ (segment s).1
unfolding segment
segment-append String.[] = refl
segment-append (String.◌∷◌ c s) = elim (Bool-cases (same (code c) b'/')) [
  | inl e ↦ ground (arith, nil-append (String.◌∷◌ c s))
  | inr e ↦ ground (arith, cons-append c (segment s).0 (segment s).1, segment-append s)
]

module _ (c : Char) (s : String) where
  segment-slash : same (code c) b'/' ≡ true → segment (String.◌∷◌ c s) ≡ ("", String.◌∷◌ c s)
  unfolding segment
  segment-slash e = rw e refl

  segment-other :
      same (code c) b'/' ≡ false
      → segment (String.◌∷◌ c s) ≡ (String.◌∷◌ c (segment s).0, (segment s).1)
  unfolding segment
  segment-other e = rw e refl

-- A first segment has no slash.
pub segment-segment : (s : String) → (segment (segment s).0).1 ≡ ""
unfolding segment
segment-segment String.[] = refl
segment-segment (String.◌∷◌ c s) = elim (Bool-cases (same (code c) b'/')) [
  | inl e ↦ rw (segment-slash c s e) refl
  | inr e ↦ rw (segment-other c s e, segment-other c (segment s).0 e) (segment-segment s)
]

-- Two texts that differ within both of them
abbrev pub differs : String → String → Bool
differs (String.◌∷◌ c p) (String.◌∷◌ d q) =
    let rest = differs p q in if same (code c) (code d) then rest else true
differs _ _ = false

pub after_prefix-differs : (p q t : String) → differs p q ≡ true → after_prefix p (q ++ t) ≡ none
unfolding after_prefix
after_prefix-differs String.[] q t h = ground arith
after_prefix-differs (String.◌∷◌ c p) String.[] t h = ground arith
after_prefix-differs (String.◌∷◌ c p) (String.◌∷◌ d q) t h =
    rw (cons-append d q t) (ground (arith, after_prefix-differs p q t))

-- A segment that begins with a character
pub segment-cons :
    (c : Char) (a : String)
    → (segment (String.◌∷◌ c a)).1 ≡ ""
    → (same (code c) b'/' ≡ false) × ((segment a).1 ≡ "")
segment-cons c a h = elim (Bool-cases (same (code c) b'/')) [
  | inl e ↦ absurd (cons≢nil (sym (ap (λ x. x.1) (segment-slash c a e)) ∙ h))
  | inr e ↦ (e, sym (ap (λ x. x.1) (segment-other c a e)) ∙ h)
]

-- The first segment of a path that is put together
pub segment-path : (a t : String) → (segment a).1 ≡ "" → segment (a ++ ("/" ++ t)) ≡ (a, "/" ++ t)
unfolding segment
segment-path String.[] t h = rw (nil-append ("/" ++ t), cons-append "/" "" t) refl
segment-path (String.◌∷◌ c a) t h =
    let (other, whole) = segment-cons c a h in
    ap segment (cons-append c a ("/" ++ t))
    ∙ segment-other c (a ++ ("/" ++ t)) other
    ∙ ap (λ x. (String.◌∷◌ c x.0, x.1)) (segment-path a t whole)
