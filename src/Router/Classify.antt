-- ===== src/Router/Classify.antt =====
-- `classify` of intelliroute/router/intent.py: the intent of a request. Upper case and the letters
-- of a word are those of ASCII.
pub mod Order
mod Tests
use intelli_route_team.Common.{
  ℕ, ◌+◌, Bool, true, false, not, ◌&&◌, ◌||◌, Option, none, some, List, [], ◌∷◌, ◌++◌, map, Text,
  leb, ltb, nat_beq, length, if◌then◌else◌, any_by, count_by,
}
use intelli_route_team.Common.Strings.{text, lower, starts_with, contains}
use intelli_route_team.Router.Provider.{
  Intent, interactive, reasoning, batch, code, ChatMessage, CompletionRequest,
}

-- `_CODE_HINTS`
unfoldable pub code_hints : List Text
code_hints =
    text "```"
    ∷ text "def "
    ∷ text "class "
    ∷ text "function "
    ∷ text "import "
    ∷ text "const "
    ∷ text "let "
    ∷ text "var "
    ∷ text "<html"
    ∷ text "SELECT "
    ∷ text "select "
    ∷ text "stack trace"
    ∷ text "traceback"
    ∷ text "syntax error"
    ∷ text "runtime error"
    ∷ text "null pointer"
    ∷ text "segmentation fault"
    ∷ text "compile error"
    ∷ text "linker error"
    ∷ text "npm install"
    ∷ text "pip install"
    ∷ text "yarn add"
    ∷ text "cargo build"
    ∷ text "refactor"
    ∷ text "unit test"
    ∷ text "write a function"
    ∷ text "write a script"
    ∷ text "fix this code"
    ∷ text "debug this"
    ∷ []

-- `_REASONING_HINTS`
unfoldable pub reasoning_hints : List Text
reasoning_hints =
    text "explain"
    ∷ text "reason"
    ∷ text "prove"
    ∷ text "derive"
    ∷ text "analyze"
    ∷ text "analyse"
    ∷ text "compare"
    ∷ text "evaluate"
    ∷ text "critique"
    ∷ text "assess"
    ∷ text "infer"
    ∷ text "deduce"
    ∷ text "conclude"
    ∷ text "step by step"
    ∷ text "chain of thought"
    ∷ text "think through"
    ∷ text "walk me through"
    ∷ text "break down"
    ∷ text "why "
    ∷ text "how does"
    ∷ text "what causes"
    ∷ text "what are the implications"
    ∷ text "pros and cons"
    ∷ text "advantages and disadvantages"
    ∷ text "compare and contrast"
    ∷ text "trade-off"
    ∷ text "tradeoff"
    ∷ text "argue"
    ∷ text "justify"
    ∷ text "make the case"
    ∷ text "counter-argument"
    ∷ []

-- `_BATCH_HINTS`
unfoldable pub batch_hints : List Text
batch_hints =
    text "summarize the following"
    ∷ text "translate the following"
    ∷ text "extract"
    ∷ text "generate a list of"
    ∷ text "batch"
    ∷ text "process all"
    ∷ text "for each of the following"
    ∷ text "classify each"
    ∷ text "tag each"
    ∷ text "convert the following"
    ∷ text "parse the following"
    ∷ text "create a report"
    ∷ text "generate n "
    ∷ text "bulk"
    ∷ text "transform the following"
    ∷ []

-- `"\n".join(…)`
abbrev pub join_lines : List Text → Text
join_lines [] = []
join_lines (t ∷ []) = t
join_lines (t ∷ u ∷ ts) = t ++ (10 ∷ join_lines (u ∷ ts))

-- `_joined_text`
unfoldable pub joined_text : List ChatMessage → Text
joined_text messages = lower (join_lines (map (λ m. m.content) messages))

-- `\w`
abbrev is_word : ℕ → Bool
is_word c =
    (leb b'0' c && leb c b'9')
    || (leb b'A' c && leb c b'Z')
    || nat_beq c b'_'
    || (leb b'a' c && leb c b'z')

abbrev ends_word : Text → Bool
ends_word [] = true
ends_word (c ∷ s) = not (is_word c)

-- The word `w` stands at the start of `s`, and ends there.
abbrev word_here : Text → Text → Bool
word_here s [] = ends_word s
word_here [] (b ∷ w) = false
word_here (a ∷ s) (b ∷ w) = nat_beq a b && word_here s w

-- `re.search` of `\b(…)\b` with some words: `inside` says whether the letter before is one of a
-- word.
abbrev search_words : List Text → Bool → Text → Bool
search_words ws inside [] = false
search_words ws inside (c ∷ s) =
    (not inside && any_by (λ w. word_here (c ∷ s) w) ws) || search_words ws (is_word c) s

unfoldable pub has_error_word : Text → Bool
has_error_word = search_words (text "bug" ∷ text "error" ∷ text "exception" ∷ []) false

-- `any(h in text for h in hints)` and `sum(1 for h in hints if h in text)`
abbrev pub any_hint : List Text → Text → Bool
any_hint hints s = any_by (λ h. contains s h) hints

abbrev pub count_hints : List Text → Text → ℕ
count_hints hints s = count_by (λ h. contains s h) hints

unfoldable pub classify_text : Text → Intent
classify_text s =
    let hits = count_hints reasoning_hints s in
    if any_hint batch_hints s
    then batch
    else if any_hint code_hints s || has_error_word s
    then code
    else if leb 1 hits && ltb 200 (length s)
    then reasoning
    else if leb 2 hits
    then reasoning
    else interactive

unfoldable pub classify : {F : Type 0} → CompletionRequest F → Intent
classify request = elim request.intent_hint [
  | some hint ↦ hint
  | none ↦ classify_text (joined_text request.messages)
]
