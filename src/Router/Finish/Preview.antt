-- ===== src/Router/Finish/Preview.antt =====
-- The previews of prompts and answers in intelliroute/router/main.py.
use intelli_route_team.Common.{
  ℕ, suc, ◌-◌, ◌≤◌, List, [], ◌∷◌, ◌++◌, Text, text_eq, ◌==◌, arith, length, take, leb,
  length-append, if◌then◌else◌, zero,
}
use intelli_route_team.Common.Strings.{text, strip, lower, join, is_space}
use intelli_route_team.Router.Provider.{ChatMessage}

abbrev or_text : Text → Text → Text
or_text [] d = d
or_text (c ∷ t) d = c ∷ t

-- `_last_user_message_text`: what is not blank is not empty once it is stripped.
unfoldable pub last_user_message_text : List ChatMessage → Text
last_user_message_text [] = []
last_user_message_text (m ∷ ms) =
    or_text (last_user_message_text ms)
      (if lower m.role == text "user" then strip m.content else [])

abbrev push_word : Text → List Text → List Text
push_word [] ws = ws
push_word (c ∷ w) ws = (c ∷ w) ∷ ws

-- The word that a text starts with, and the words after it.
scan : Text → Text × List Text
scan [] = ([], [])
scan (c ∷ s) = let (w, ws) = scan s in if is_space c then ([], push_word w ws) else (c ∷ w, ws)

-- `s.split()`
unfoldable pub words : Text → List Text
unfolding scan
words s = let (w, ws) = scan s in push_word w ws

-- `"…"`
abbrev ellipsis : ℕ
ellipsis = 8230

abbrev squeezed : Text → Text
squeezed s = join (text " ") (words s)

-- `_truncate_preview_text`
unfoldable pub truncate_preview_text : Text → ℕ → Text
truncate_preview_text s max_len =
    let raw = squeezed s in
    if leb max_len 0
    then []
    else if leb (length raw) max_len
    then raw
    else take (max_len - 1) raw ++ (ellipsis ∷ [])

length-take-le : (n : ℕ) (s : Text) → length (take n s) ≤ n
length-take-le zero s = omega arith
length-take-le (suc n) [] = omega arith
length-take-le (suc n) (c ∷ s) = omega (arith, length-take-le n s)

-- A preview is never longer than it may be.
pub length-truncate_preview_text :
    (s : Text) (max_len : ℕ) → length (truncate_preview_text s max_len) ≤ max_len
unfolding truncate_preview_text
length-truncate_preview_text s max_len =
    let raw = squeezed s in
    ground (
      arith,
      length-take-le (max_len - 1) raw,
      length-append (take (max_len - 1) raw) (ellipsis ∷ []),
    )
