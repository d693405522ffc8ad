-- ===== src/Router/Classify/Order.antt =====
-- What the classification does with longer conversations and with upper case.
use mathlib.Core.List.{append-nil, append_assoc}
use intelli_route_team.Common.{
  ℕ, ◌≡◌, ◌∙◌, sym, ap, refl, inl, inr, Bool, true, false, ◌&&◌, List, [], ◌∷◌, ◌++◌, map, Text,
  arith, leb, any_by, Option-cases,
}
use intelli_route_team.Common.Strings.{lower, starts_with, contains}
use intelli_route_team.Router.Provider.{batch, ChatMessage, CompletionRequest}
use intelli_route_team.Router.Classify.{
  join_lines, joined_text, any_hint, batch_hints, classify_text, classify,
}

starts_with-append : (s t p : Text) → starts_with s p ≡ true → starts_with (s ++ t) p ≡ true
starts_with-append s t [] h = refl
starts_with-append [] t (b ∷ p) h = absurd (ground (arith, h))
starts_with-append (a ∷ s) t (b ∷ p) h = ground (arith, h, starts_with-append s t p)

contains-nil : (t : Text) → contains t [] ≡ true
contains-nil [] = refl
contains-nil (c ∷ t) = refl

contains-append : (s t p : Text) → contains s p ≡ true → contains (s ++ t) p ≡ true
contains-append [] t [] h = contains-nil t
contains-append [] t (b ∷ p) h = absurd (ground (arith, h))
contains-append (a ∷ s) t p h =
    ground (arith, h, contains-append s t p, starts_with-append (a ∷ s) t p)

any_hint-append :
    (hints : List Text) (s t : Text) → any_hint hints s ≡ true → any_hint hints (s ++ t) ≡ true
any_hint-append [] s t h = absurd (ground (arith, h))
any_hint-append (p ∷ ps) s t h = ground (arith, h, contains-append s t p, any_hint-append ps s t)

lower-append : (s t : Text) → lower (s ++ t) ≡ lower s ++ lower t
lower-append [] t = refl
lower-append (c ∷ s) t = rw (lower-append s t) refl

-- The texts of more messages stand behind those of the first.
join_lines-append :
    (ts us : List Text) → (rest : Text) × (join_lines (ts ++ us) ≡ join_lines ts ++ rest)
join_lines-append [] us = (join_lines us, refl)
join_lines-append (t ∷ []) [] = ([], sym (append-nil t))
join_lines-append (t ∷ []) (u ∷ us) = (10 ∷ join_lines (u ∷ us), refl)
join_lines-append (t ∷ v ∷ ts) us =
    let (rest, e) = join_lines-append (v ∷ ts) us in
    (rest, ap (λ u. t ++ (10 ∷ u)) e ∙ sym (append_assoc t (10 ∷ join_lines (v ∷ ts)) rest))

map-append :
    (ms ns : List ChatMessage)
    → map (λ m. m.content) (ms ++ ns) ≡ map (λ m. m.content) ms ++ map (λ m. m.content) ns
map-append [] ns = refl
map-append (m ∷ ms) ns = rw (map-append ms ns) refl

joined_text-append :
    (ms ns : List ChatMessage) → (rest : Text) × (joined_text (ms ++ ns) ≡ joined_text ms ++ rest)
unfolding joined_text
joined_text-append ms ns =
    let (rest, e) = join_lines-append (map (λ m. m.content) ms) (map (λ m. m.content) ns) in
    (
      lower rest,
      ap lower (ap join_lines (map-append ms ns) ∙ e)
          ∙ lower-append (join_lines (map (λ m. m.content) ms)) rest,
    )

batch_hint-classify_text : (s : Text) → classify_text s ≡ batch → any_hint batch_hints s ≡ true
unfolding classify_text
batch_hint-classify_text s h = ground (arith, h)

classify_text-batch_hint : (s : Text) → any_hint batch_hints s ≡ true → classify_text s ≡ batch
unfolding classify_text
classify_text-batch_hint s h = rw h refl

-- A request that is classified as a batch stays one when messages are added behind its own.
pub classify-grows :
    {F : Type 0} (request : CompletionRequest F) (more : List ChatMessage)
    → classify request ≡ batch
    → classify (record request { messages = request.messages ++ more }) ≡ batch
unfolding classify
classify-grows request more h = elim (Option-cases request.intent_hint) [
  | inl e ↦
      let s = joined_text request.messages in
      let (rest, longer) = joined_text-append request.messages more in
      let found = batch_hint-classify_text s (rw e at h) in
      rw (e, longer)
        (classify_text-batch_hint (s ++ rest) (any_hint-append batch_hints s rest found))
  | inr (hint, e) ↦ rw e (rw e at h)
]

-- An upper-case letter.
abbrev pub is_upper : ℕ → Bool
is_upper c = leb b'A' c && leb c b'Z'

starts_with-upper : (s p : Text) → any_by is_upper p ≡ true → starts_with (lower s) p ≡ false
starts_with-upper s [] h = absurd (ground (arith, h))
starts_with-upper [] (b ∷ p) h = refl
starts_with-upper (a ∷ s) (b ∷ p) h = ground (arith, h, starts_with-upper s p)

contains-upper : (s p : Text) → any_by is_upper p ≡ true → contains (lower s) p ≡ false
contains-upper [] p h = starts_with-upper [] p h
contains-upper (c ∷ s) p h = ground (arith, starts_with-upper (c ∷ s) p h, contains-upper s p h)

-- A hint with an upper-case letter is never found: whatever the messages, the text that the
-- classification searches does not contain it.
pub upper_hint_never :
    (messages : List ChatMessage) (hint : Text)
    → any_by is_upper hint ≡ true
    → contains (joined_text messages) hint ≡ false
unfolding joined_text
upper_hint_never messages hint h = contains-upper _ hint h
