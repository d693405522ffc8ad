-- ===== src/Common/Strings/Split.antt =====
-- `str.split` and `str.partition` at one character, with the laws that undo them.
use mathlib.Core.Path.{◌≡◌, refl, ap, ◌∙◌}
use mathlib.Core.Bool.{Bool, true, false, ◌&&◌, ◌||◌, not}
use mathlib.Core.List.{List, [], ◌∷◌, ◌++◌}
use native.Mathlib.Omega.{arith}
use Prim.Native.Nat.{ℕ}
use intelli_route_team.Common.Tests.{nat_beq, if◌then◌else◌}
use intelli_route_team.Common.Equality.{Text}
use intelli_route_team.Common.Lists.{all_by, any_by, All}
use intelli_route_team.Common.Strings.{is_space, rstrip, end_at, strip, join, is_text}

-- `c in s`
abbrev pub has_char : ℕ → Text → Bool
has_char c s = any_by (λ d. nat_beq d c) s

-- `s.partition(c)[0]`
abbrev pub before : ℕ → Text → Text
before c [] = []
before c (d ∷ s) = if nat_beq d c then [] else d ∷ before c s

-- `s.partition(c)[2]`: empty if there is no `c`
abbrev pub after : ℕ → Text → Text
after c [] = []
after c (d ∷ s) = if nat_beq d c then s else after c s

abbrev onto_first : ℕ → List Text → List Text
onto_first d [] = (d ∷ []) ∷ []
onto_first d (t ∷ ts) = (d ∷ t) ∷ ts

-- `s.split(c)`
abbrev pub split_on : ℕ → Text → List Text
split_on c [] = [] ∷ []
split_on c (d ∷ s) = if nat_beq d c then [] ∷ split_on c s else onto_first d (split_on c s)

pub before-append : (c : ℕ) (s t : Text) → has_char c s ≡ false → before c (s ++ (c ∷ t)) ≡ s
before-append c [] t h = ground arith
before-append c (d ∷ s) t h = ground (arith, before-append c s t)

pub after-append : (c : ℕ) (s t : Text) → has_char c s ≡ false → after c (s ++ (c ∷ t)) ≡ t
after-append c [] t h = ground arith
after-append c (d ∷ s) t h = ground (arith, after-append c s t)

pub has_char-append : (c : ℕ) (s t : Text) → has_char c (s ++ t) ≡ (has_char c s || has_char c t)
has_char-append c [] t = refl
has_char-append c (d ∷ s) t = ground (arith, has_char-append c s t)

split_on-none : (c : ℕ) (s : Text) → has_char c s ≡ false → split_on c s ≡ s ∷ []
split_on-none c [] h = refl
split_on-none c (d ∷ s) h = ground (arith, split_on-none c s)

split_on-append :
    (c : ℕ) (s t : Text) → has_char c s ≡ false → split_on c (s ++ (c ∷ t)) ≡ s ∷ split_on c t
split_on-append c [] t h = ground arith
split_on-append c (d ∷ s) t h = ground (arith, split_on-append c s t)

-- Splitting undoes joining, where no part has the separator.
pub split_on-join :
    (c : ℕ) (s : Text) (ts : List Text)
    → All (λ t. has_char c t ≡ false) (s ∷ ts)
    → split_on c (join (c ∷ []) (s ∷ ts)) ≡ s ∷ ts
split_on-join c s [] h = split_on-none c s h.0
split_on-join c s (t ∷ ts) h =
    split_on-append c s (join (c ∷ []) (t ∷ ts)) h.0 ∙ ap (λ l. s ∷ l) (split_on-join c t ts h.1)

-- A text without white space.
abbrev pub is_solid : Text → Bool
is_solid s = all_by (λ c. not (is_space c)) s

pub is_solid-append : (s t : Text) → is_solid (s ++ t) ≡ (is_solid s && is_solid t)
is_solid-append [] t = refl
is_solid-append (c ∷ s) t = ground (arith, is_solid-append s t)

end_at-solid : (c : ℕ) (s : Text) → is_space c ≡ false → end_at c s ≡ c ∷ s
end_at-solid c [] h = ground arith
end_at-solid c (d ∷ s) h = refl

pub rstrip-solid : (s : Text) → is_solid s ≡ true → rstrip s ≡ s
rstrip-solid [] h = refl
rstrip-solid (c ∷ s) h =
    ap (end_at c) (rstrip-solid s (ground arith)) ∙ end_at-solid c s (ground arith)

pub strip-solid : (s : Text) → is_solid s ≡ true → strip s ≡ s
strip-solid [] h = refl
strip-solid (c ∷ s) h = ground (arith, rstrip-solid (c ∷ s))

pub is_text-append : (s t : Text) → is_text s ≡ true → is_text (s ++ t) ≡ true
is_text-append [] t h = cc
is_text-append (c ∷ s) t h = refl

pub is_text-cons : (s : Text) (c : ℕ) (t : Text) → is_text (s ++ (c ∷ t)) ≡ true
is_text-cons [] c t = refl
is_text-cons (d ∷ s) c t = refl
