-- ===== src/Router/Client/Payload.antt =====
-- What Gemini is sent of a request.
use intelli_route_team.Common.{
  ◌+◌, ◌-◌, ◌≡◌, Bool, true, ◌&&◌, ◌||◌, List, [], ◌∷◌, Text, text_eq, ◌==◌, arith, length, any_by,
  all_by, count_by, max, refl,
}
use intelli_route_team.Common.Dict.{is_some}
use intelli_route_team.Common.Strings.{text, is_text}
use intelli_route_team.Router.Provider.{ChatMessage, CompletionRequest}
use intelli_route_team.Router.Client.{
  gemini_payload, is_system, system_texts, turns, or_blank, instruction_of,
}

-- The two roles that Gemini knows.
abbrev pub is_gemini_role : Text → Bool
is_gemini_role r = r == text "model" || r == text "user"

abbrev pub is_instruction : ChatMessage → Bool
is_instruction m = is_system m && is_text m.content

all_roles : (messages : List ChatMessage) → all_by (λ c. is_gemini_role c.0) (turns messages) ≡ true
all_roles [] = refl
all_roles (m ∷ ms) = ground (arith, all_roles ms)

length-turns :
    (messages : List ChatMessage)
    → length (turns messages) + count_by is_system messages ≡ length messages
length-turns [] = omega arith
length-turns (m ∷ ms) = ground (arith, length-turns ms)

is_some-instruction_of :
    (messages : List ChatMessage)
    → is_some (instruction_of (system_texts messages)) ≡ any_by is_instruction messages
is_some-instruction_of [] = refl
is_some-instruction_of (m ∷ ms) = ground (arith, is_some-instruction_of ms)

all-or_blank :
    (cs : List (Text × Text))
    → all_by (λ c. is_gemini_role c.0) cs ≡ true
    → all_by (λ c. is_gemini_role c.0) (or_blank cs) ≡ true
all-or_blank [] h = refl
all-or_blank (c ∷ cs) h = h

length-or_blank : (cs : List (Text × Text)) → length (or_blank cs) ≡ max 1 (length cs)
length-or_blank [] = refl
length-or_blank (c ∷ cs) = ground arith

module _ {F : Type 0} (req : CompletionRequest F) where
  -- Gemini gets every message that is not a system message, under a role that it knows, and at
  -- least one; and it gets a system instruction exactly if some system message is not empty.
  pub gemini_payload_lem :
      let p = gemini_payload req in
      (all_by (λ c. is_gemini_role c.0) p.contents ≡ true)
      × (length p.contents ≡ max 1 (length req.messages - count_by is_system req.messages))
      × (is_some p.system_instruction ≡ any_by is_instruction req.messages)
  unfolding gemini_payload
  gemini_payload_lem =
      let ms = req.messages in
      (
        all-or_blank (turns ms) (all_roles ms),
        omega (arith, length-or_blank (turns ms), length-turns ms),
        is_some-instruction_of ms,
      )
