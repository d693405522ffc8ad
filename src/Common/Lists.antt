-- ===== src/Common/Lists.antt =====
-- Lists measured by native numbers, and Python's comprehensions with a Boolean test.
use Prim.Native.Nat.{ℕ, zero, suc, ◌+◌, ◌-◌, ◌≤◌}
use mathlib.Core.Path.{◌≡◌, refl}
use mathlib.Core.Logic.{◌⊎◌, inl, inr}
use mathlib.Core.Bool.{Bool, true, false, ◌&&◌, ◌||◌}
use mathlib.Core.List.{List, [], ◌∷◌, ◌++◌}
use native.Mathlib.Omega.{arith}
use native.Mathlib.Decide.{dec_le}
use intelli_route_team.Common.Tests.{if◌then◌else◌, ltb}

module _ {ℓ} {A : Type ℓ} where
  abbrev pub length : List A → ℕ
  length [] = 0
  length (x ∷ xs) = suc (length xs)

  abbrev pub take : ℕ → List A → List A
  take zero xs = []
  take (suc n) [] = []
  take (suc n) (x ∷ xs) = x ∷ take n xs

  abbrev pub drop : ℕ → List A → List A
  drop zero xs = xs
  drop (suc n) [] = []
  drop (suc n) (x ∷ xs) = drop n xs

  -- `[x for x in xs if p(x)]`
  abbrev pub filter_by : (A → Bool) → List A → List A
  filter_by p [] = []
  filter_by p (x ∷ xs) = if p x then x ∷ filter_by p xs else filter_by p xs

  -- `any(p(x) for x in xs)`
  abbrev pub any_by : (A → Bool) → List A → Bool
  any_by p [] = false
  any_by p (x ∷ xs) = p x || any_by p xs

  -- `all(p(x) for x in xs)`
  abbrev pub all_by : (A → Bool) → List A → Bool
  all_by p [] = true
  all_by p (x ∷ xs) = p x && all_by p xs

  -- `sum(1 for x in xs if p(x))`
  abbrev pub count_by : (A → Bool) → List A → ℕ
  count_by p [] = 0
  count_by p (x ∷ xs) = if p x then suc (count_by p xs) else count_by p xs

  abbrev pub foldl_by {κ} : {S : Type κ} → (S → A → S) → S → List A → S
  foldl_by f s [] = s
  foldl_by f s (x ∷ xs) = foldl_by f (f s x) xs

  abbrev pub All {κ} : (A → Type κ) → List A → Type κ
  All P [] = Unit
  All P (x ∷ xs) = P x × All P xs

  pub All-weaken_by {κ} :
      (P Q : A → Type κ) (xs : List A) → ((x : A) → P x → Q x) → All P xs → All Q xs
  All-weaken_by P Q [] f h = tt
  All-weaken_by P Q (x ∷ xs) f h = (f x h.0, All-weaken_by P Q xs f h.1)

  pub filter_by-cong :
      (p q : A → Bool) (xs : List A) → ((x : A) → p x ≡ q x) → filter_by p xs ≡ filter_by q xs
  filter_by-cong p q [] h = refl
  filter_by-cong p q (x ∷ xs) h = ground (arith, h x, filter_by-cong p q xs h)

  pub filter_by-none : (p : A → Bool) (xs : List A) → any_by p xs ≡ false → filter_by p xs ≡ []
  filter_by-none p [] h = refl
  filter_by-none p (x ∷ xs) h = ground (arith, filter_by-none p xs)

  pub any_by-filter_by : (p : A → Bool) (xs : List A) → filter_by p xs ≡ [] → any_by p xs ≡ false
  any_by-filter_by p [] h = refl
  any_by-filter_by p (x ∷ xs) h = ground (arith, any_by-filter_by p xs)

  pub length-append : (xs ys : List A) → length (xs ++ ys) ≡ length xs + length ys
  length-append [] ys = omega arith
  length-append (x ∷ xs) ys = omega (arith, length-append xs ys)

  pub filter_by-append :
      (p : A → Bool) (xs ys : List A) → filter_by p (xs ++ ys) ≡ filter_by p xs ++ filter_by p ys
  filter_by-append p [] ys = refl
  filter_by-append p (x ∷ xs) ys = ground (arith, filter_by-append p xs ys)

  pub length-drop : (n : ℕ) (xs : List A) → length (drop n xs) ≡ length xs - n
  length-drop zero xs = omega arith
  length-drop (suc n) [] = omega arith
  length-drop (suc n) (x ∷ xs) = omega (arith, length-drop n xs)

  pub count_by-le-length : (p : A → Bool) (xs : List A) → count_by p xs ≤ length xs
  count_by-le-length p [] = omega arith
  count_by-le-length p (x ∷ xs) = ground (arith, count_by-le-length p xs)

  pub foldl_by-append {κ} :
      {S : Type κ} (f : S → A → S) (s : S) (xs ys : List A)
      → foldl_by f s (xs ++ ys) ≡ foldl_by f (foldl_by f s xs) ys
  foldl_by-append f s [] ys = refl
  foldl_by-append f s (x ∷ xs) ys = foldl_by-append f (f s x) xs ys

  pub drop-append : (xs ys : List A) → drop (length xs) (xs ++ ys) ≡ ys
  drop-append [] ys = refl
  drop-append (x ∷ xs) ys = drop-append xs ys

  pub drop-append_left :
      (n : ℕ) (xs ys : List A) → n ≤ length xs → drop n (xs ++ ys) ≡ drop n xs ++ ys
  drop-append_left zero xs ys h = refl
  drop-append_left (suc n) [] ys h = absurd (omega arith)
  drop-append_left (suc n) (x ∷ xs) ys h = drop-append_left n xs ys (omega arith)

  pub drop-drop : (n : ℕ) (xs : List A) → drop 1 (drop n xs) ≡ drop (suc n) xs
  drop-drop zero xs = refl
  drop-drop (suc n) [] = refl
  drop-drop (suc n) (x ∷ xs) = drop-drop n xs

  -- `xs.append(x)`, then `xs.pop(0)` if that made the list longer than `size`.
  unfoldable pub push_bounded : ℕ → List A → A → List A
  push_bounded size xs x = let ys = xs ++ (x ∷ []) in if ltb size (length ys) then drop 1 ys else ys

  abbrev pub last_n : ℕ → List A → List A
  last_n n xs = drop (length xs - n) xs

  pub length-push_bounded :
      (size : ℕ) (xs : List A) (x : A) → length xs ≤ size → length (push_bounded size xs x) ≤ size
  unfolding push_bounded
  length-push_bounded size xs x h =
      ground (arith, length-append xs (x ∷ []), length-drop 1 (xs ++ (x ∷ [])))

  -- A bounded list holds the newest items of all that were pushed.
  pub push_bounded-last_n :
      (size : ℕ) (xs : List A) (x : A)
      → push_bounded size (last_n size xs) x ≡ last_n size (xs ++ (x ∷ []))
  unfolding push_bounded
  push_bounded-last_n size xs x = elim (dec_le size (length xs)) [
    | yes full ↦
        let k = length xs - size in
        let next : length (xs ++ (x ∷ [])) - size ≡ suc k =
          omega (arith, length-append xs (x ∷ [])) in
        rw (next, ← drop-drop k (xs ++ (x ∷ [])), drop-append_left k xs (x ∷ []) (omega arith))
          (ground (arith, length-append (drop k xs) (x ∷ []), length-drop k xs))
    | no room ↦
        let here : length xs - size ≡ 0 = omega arith in
        let next : length (xs ++ (x ∷ [])) - size ≡ 0 = omega (arith, length-append xs (x ∷ [])) in
        rw (here, next) (ground (arith, length-append xs (x ∷ [])))
  ]

  pub List-cases : (xs : List A) → (xs ≡ []) ⊎ ((x : A) × (ys : List A) × (xs ≡ x ∷ ys))
  List-cases [] = inl refl
  List-cases (x ∷ xs) = inr (x, xs, refl)
