-- ===== src/Config/Dotenv.antt =====
-- intelliroute/common/env.py: a line of the `.env` file and its loading, once, into the environment.
pub mod Quoted
use mathlib.Core.Path.{◌≡◌, refl, ap, ◌∙◌, sym}
use intelli_route_team.Common.{
  ℕ, zero, suc, Bool, true, false, ◌&&◌, ◌||◌, not, Option, none, some, List, [], ◌∷◌, ◌++◌, Text,
  ◌==◌, text_eq, nat_beq, all_by, any_by, All, if◌then◌else◌, map, arith,
}
use intelli_route_team.Common.Dict.{lookup, insert, is_some, lookup-insert}
use intelli_route_team.Common.Strings.{
  text, strip, lstrip, rstrip, end_at, lower, is_text, is_space, starts_with, contains,
}
use intelli_route_team.Common.Strings.Split.{
  has_char, before, after, is_solid, is_solid-append, strip-solid, before-append, after-append,
  has_char-append,
}
use intelli_route_team.Config.{Environ, get_env, truthy}

abbrev pub is_quote : ℕ → Bool
is_quote c = nat_beq c b'"' || nat_beq c b'\''

abbrev pub last_of : ℕ → Text → ℕ
last_of c [] = c
last_of c (d ∷ s) = last_of d s

-- `s[:-1]`
abbrev pub drop_last : Text → Text
drop_last [] = []
drop_last (c ∷ []) = []
drop_last (c ∷ d ∷ s) = c ∷ drop_last (d ∷ s)

abbrev pub unquoted : Text → Text
unquoted [] = []
unquoted (q ∷ s) = if nat_beq q (last_of q s) && is_quote q then drop_last s else q ∷ s

-- `s.split(" #", 1)[0]`
abbrev before_comment : Text → Text
before_comment [] = []
before_comment (c ∷ s) = if starts_with (c ∷ s) (text " #") then [] else c ∷ before_comment s

abbrev pub uncommented : Text → Text
uncommented v =
    if contains v (text " #") && not (starts_with v (text "#"))
    then rstrip (before_comment v)
    else v

abbrev drop_first : ℕ → Text → Text
drop_first n [] = []
drop_first zero (c ∷ s) = c ∷ s
drop_first (suc n) (c ∷ s) = drop_first n s

abbrev pub unexported : Text → Text
unexported line = if starts_with line (text "export ") then strip (drop_first 7 line) else line

abbrev pub entry_of : Text → Text → Option (Text × Text)
entry_of key value = if is_text key then some (key, uncommented (unquoted value)) else none

abbrev pub parse_entry : Text → Option (Text × Text)
parse_entry line =
    if has_char b'=' line
    then entry_of (strip (before b'=' line)) (strip (after b'=' line))
    else none

-- `_parse_line`
unfoldable pub parse_line : Text → Option (Text × Text)
parse_line raw =
    let line = strip raw in
    if not (is_text line) || starts_with line (text "#")
    then none
    else parse_entry (unexported line)

-- `os.environ.setdefault(key, value)`
abbrev pub set_default : Text → Text → Environ → Environ
set_default key value env = if is_some (lookup key env) then env else insert key value env

abbrev pub load_parsed : Option (Text × Text) → Environ → Environ
load_parsed none env = env
load_parsed (some (key, value)) env = set_default key value env

abbrev pub load_lines : List Text → Environ → Environ
load_lines [] env = env
load_lines (raw ∷ lines) env = load_lines lines (load_parsed (parse_line raw) env)

abbrev pub skips : Environ → Bool
skips env =
    any_by (λ t. lower (strip (get_env (text "INTELLIROUTE_SKIP_DOTENV") [] env)) == t) truthy

-- `_LOADED` and the environment
pub record Loader : Type 0 where
  pub loaded : Bool
  pub environ : Environ

abbrev pub load_file : Option (List Text) → Environ → Environ
load_file none env = env
load_file (some lines) env = load_lines lines env

-- `load_dotenv_if_present`: the lines of the file, if there is one, are an argument.
unfoldable pub load_dotenv_if_present : Option (List Text) → Loader → Loader
load_dotenv_if_present file l = if l.loaded then l else record {
  loaded = true;
  environ = (if skips l.environ then l.environ else load_file file l.environ);
}
