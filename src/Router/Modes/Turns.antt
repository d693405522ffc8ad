-- ===== src/Router/Modes/Turns.antt =====
-- How round robin shares out the first place.
use native.Mathlib.Nat.{add-mod_right, mod-eq_of_lt, mod-lt}
use intelli_route_team.Common.{
  ℕ, zero, suc, ◌+◌, ◌%◌, ◌≡◌, ◌≤◌, ◌<◌, ◌∙◌, sym, ap, refl, Bool, List, [], ◌∷◌, ◌++◌, arith, Text,
  drop, length, max,
}
use intelli_route_team.Common.Dict.{Dict}
use intelli_route_team.Common.Float.{Float}
use intelli_route_team.Common.Sort.{sum_by, sum_by-sort_by, sort_by}
use intelli_route_team.Common.Strings.{text}
use intelli_route_team.HealthMonitor.Monitor.{ProviderHealth}
use intelli_route_team.Router.Provider.{Intent, ProviderInfo, ScoredProvider, CompletionRequest}
use intelli_route_team.Router.Policy.{RoutingPolicy}
use intelli_route_team.Router.Modes.{Modes, naive_from, rotated, name_less, rank_candidates}

add_zero : (c : ℕ) → c + 0 ≡ c
add_zero c = omega arith

length-sum_by : {A : Type 0} (xs : List A) → length xs ≡ sum_by (λ x. 1) xs
length-sum_by [] = refl
length-sum_by (x ∷ xs) = omega (arith, length-sum_by xs)

length-sort_by :
    {A : Type 0} (less : A → A → Bool) (xs : List A) → length (sort_by less xs) ≡ length xs
length-sort_by less xs =
    length-sum_by (sort_by less xs) ∙ sum_by-sort_by less (λ x. 1) xs ∙ sym (length-sum_by xs)

sum_by-drop_all :
    {A : Type 0} (f : A → ℕ) (j : ℕ) (xs : List A) → length xs ≤ j → sum_by f (drop j xs) ≡ 0
sum_by-drop_all f zero [] h = refl
sum_by-drop_all f zero (x ∷ xs) h = absurd (omega arith)
sum_by-drop_all f (suc j) [] h = refl
sum_by-drop_all f (suc j) (x ∷ xs) h = sum_by-drop_all f j xs (omega arith)

module _ {F : Type 0} ⦃fl : Float F⦄ where
  -- `f` of the provider that is ranked first.
  abbrev pub first_of : (ProviderInfo F → ℕ) → List (ScoredProvider F) → ℕ
  first_of f [] = 0
  first_of f (s ∷ ss) = f s.provider

  abbrev nth : (ProviderInfo F → ℕ) → ℕ → List (ProviderInfo F) → ℕ
  nth f n [] = 0
  nth f zero (p ∷ ps) = f p
  nth f (suc n) (p ∷ ps) = nth f n ps

  -- `f` of the first provider, over `k` turns from the cursor `c` on.
  abbrev turns : (ProviderInfo F → ℕ) → List (ProviderInfo F) → ℕ → ℕ → ℕ
  turns f ps c zero = 0
  turns f ps c (suc k) = nth f (c % length ps) ps + turns f ps (c + 1) k

  turns-last :
      (f : ProviderInfo F → ℕ) (ps : List (ProviderInfo F)) (c k : ℕ)
      → turns f ps c (suc k) ≡ turns f ps c k + nth f ((c + k) % length ps) ps
  turns-last f ps c zero = rw (add_zero c) (omega arith)
  turns-last f ps c (suc k) =
      let e : c + 1 + k ≡ c + suc k = omega arith in
      let n = nth f (c % length ps) ps in
      ap (λ x. n + x) (turns-last f ps (c + 1) k)
      ∙ ap (λ j. n + (turns f ps (c + 1) k + nth f (j % length ps) ps)) e
      ∙ omega arith

  -- One turn more or less before a whole round.
  turns-shift :
      (f : ProviderInfo F → ℕ) (ps : List (ProviderInfo F)) (c : ℕ)
      → turns f ps (c + 1) (length ps) ≡ turns f ps c (length ps)
  turns-shift f ps c =
      let e = add-mod_right c (length ps) in
      let step = turns-last f ps c (length ps) in
      let same = ap (λ j. nth f j ps) e in omega (arith, step, same)

  turns-any :
      (f : ProviderInfo F → ℕ) (ps : List (ProviderInfo F)) (c : ℕ)
      → turns f ps c (length ps) ≡ turns f ps 0 (length ps)
  turns-any f ps zero = refl
  turns-any f ps (suc c) =
      let e : suc c ≡ c + 1 = omega arith in
      ap (λ i. turns f ps i (length ps)) e ∙ turns-shift f ps c ∙ turns-any f ps c

  nth-drop :
      (f : ProviderInfo F → ℕ) (j : ℕ) (ps : List (ProviderInfo F))
      → sum_by f (drop j ps) ≡ nth f j ps + sum_by f (drop (suc j) ps)
  nth-drop f zero [] = refl
  nth-drop f zero (p ∷ ps) = refl
  nth-drop f (suc j) [] = refl
  nth-drop f (suc j) (p ∷ ps) = nth-drop f j ps

  turns-round :
      (f : ProviderInfo F → ℕ) (ps : List (ProviderInfo F)) (j k : ℕ)
      → j + k ≡ length ps
      → turns f ps j k ≡ sum_by f (drop j ps)
  turns-round f ps j zero h = sym (sum_by-drop_all f j ps (omega arith))
  turns-round f ps j (suc k) h =
      let e : j % length ps ≡ j = mod-eq_of_lt (omega arith) in
      let next : j + 1 ≡ suc j = omega arith in
      ap (λ i. nth f i ps + turns f ps (j + 1) k) e
      ∙ ap (λ x. nth f j ps + x) (turns-round f ps (j + 1) k (omega arith))
      ∙ ap (λ i. nth f j ps + sum_by f (drop i ps)) next
      ∙ sym (nth-drop f j ps)

  first_of-naive_from :
      (f : ProviderInfo F → ℕ) (i n j : ℕ) (xs ys : List (ProviderInfo F))
      → j < length xs
      → first_of f (naive_from i n (drop j xs ++ ys)) ≡ nth f j xs
  unfolding naive_from
  first_of-naive_from f i n j [] ys h = absurd (omega arith)
  first_of-naive_from f i n zero (x ∷ xs) ys h = refl
  first_of-naive_from f i n (suc j) (x ∷ xs) ys h = first_of-naive_from f i n j xs ys (omega arith)

  first_of-rotated :
      (f : ProviderInfo F → ℕ) (i n c : ℕ) (ps : List (ProviderInfo F))
      → first_of f (naive_from i n (rotated c ps)) ≡ nth f (c % length ps) ps
  unfolding naive_from
  first_of-rotated f i n c [] = refl
  first_of-rotated f i n c (p ∷ ps) =
      first_of-naive_from f i n (c % length (p ∷ ps)) (p ∷ ps) _ (mod-lt c (omega arith))

  -- `f` of the provider that is ranked first, over requests one after another.
  abbrev pub first_over :
      (ProviderInfo F → ℕ)
      → RoutingPolicy F
      → List (ProviderInfo F)
      → Dict Text (ProviderHealth F)
      → List (Intent × CompletionRequest F)
      → Modes
      → ℕ
  first_over f policy candidates health [] s = 0
  first_over f policy candidates health ((intent, req) ∷ reqs) s =
      let (scored, after) =
        rank_candidates (text "round_robin") policy candidates health intent req s in
      first_of f scored + first_over f policy candidates health reqs after

  first_over-turns :
      (f : ProviderInfo F → ℕ) (policy : RoutingPolicy F) (p : ProviderInfo F)
      (ps : List (ProviderInfo F)) (health : Dict Text (ProviderHealth F))
      (reqs : List (Intent × CompletionRequest F)) (s : Modes)
      → first_over f policy (p ∷ ps) health reqs s
        ≡ turns f (sort_by name_less (p ∷ ps)) s.rr_cursor (length reqs)
  unfolding rank_candidates
  first_over-turns f policy p ps health [] s = refl
  first_over-turns f policy p ps health ((intent, req) ∷ reqs) s =
      let ordered = sort_by name_less (p ∷ ps) in
      let next = record s { rr_cursor = s.rr_cursor + 1 } in
      ap (λ n. n + first_over f policy (p ∷ ps) health reqs next)
        (first_of-rotated f 0 (max 1 (length (rotated s.rr_cursor ordered))) s.rr_cursor ordered)
      ∙ ap (λ n. nth f (s.rr_cursor % length ordered) ordered + n)
          (first_over-turns f policy p ps health reqs next)

  -- In round robin, whatever the cursor: over as many requests as there are candidates, one after
  -- another and with the same candidates, each candidate is ranked first as often as it is a candidate.
  pub round_robin_fair :
      (f : ProviderInfo F → ℕ) (policy : RoutingPolicy F) (candidates : List (ProviderInfo F))
      (health : Dict Text (ProviderHealth F)) (reqs : List (Intent × CompletionRequest F))
      (s : Modes)
      → length reqs ≡ length candidates
      → first_over f policy candidates health reqs s ≡ sum_by f candidates
  round_robin_fair f policy [] health [] s h = refl
  round_robin_fair f policy [] health (r ∷ reqs) s h = absurd (omega arith)
  round_robin_fair f policy (p ∷ ps) health reqs s h =
      let ordered = sort_by name_less (p ∷ ps) in
      let e : length reqs ≡ length ordered = h ∙ sym (length-sort_by name_less (p ∷ ps)) in
      first_over-turns f policy p ps health reqs s
      ∙ ap (turns f ordered s.rr_cursor) e
      ∙ turns-any f ordered s.rr_cursor
      ∙ turns-round f ordered 0 (length ordered) (omega arith)
      ∙ sum_by-sort_by name_less f (p ∷ ps)
