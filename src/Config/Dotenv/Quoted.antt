-- ===== src/Config/Dotenv/Quoted.antt =====
-- intelliroute/common/env.py: the lines that a file with quoted values has, and what they set.
use mathlib.Core.Path.{◌≡◌, refl, ap, ◌∙◌}
use intelli_route_team.Common.{
  ℕ, true, false, ◌&&◌, not, Option, none, some, [], ◌∷◌, ◌++◌, Text, ◌==◌, text_eq, All,
  if◌then◌else◌, map, arith,
}
use intelli_route_team.Common.Dict.{lookup, lookup-insert}
use intelli_route_team.Common.Strings.{
  text, strip, rstrip, end_at, is_text, is_space, starts_with, contains,
}
use intelli_route_team.Common.Strings.Split.{
  has_char, is_solid, strip-solid, before-append, after-append, has_char-append,
}
use intelli_route_team.Config.{Environ}
use intelli_route_team.Config.Dotenv.{
  last_of, drop_last, unquoted, entry_of, parse_entry, parse_line, set_default, load_parsed,
  load_lines, skips, load_dotenv_if_present,
}

-- `key="value"`
abbrev pub quoted : Text × Text → Text
quoted (key, value) = key ++ (b'=' ∷ b'"' ∷ (value ++ (b'"' ∷ [])))

-- The key is a word that starts no comment; the value has no mark of a comment inside.
abbrev pub IsWritable : Text × Text → Type 0
IsWritable (key, value) =
    (is_text key ≡ true)
    × (is_solid key ≡ true)
    × (has_char b'=' key ≡ false)
    × (starts_with key (text "#") ≡ false)
    × ((contains value (text " #") && not (starts_with value (text "#"))) ≡ false)

end_at-text : (c : ℕ) (s : Text) → is_text s ≡ true → end_at c s ≡ c ∷ s
end_at-text c [] h = cc
end_at-text c (d ∷ s) h = refl

is_text-onto : (s t : Text) → is_text t ≡ true → is_text (s ++ t) ≡ true
is_text-onto [] t h = h
is_text-onto (c ∷ s) t h = refl

rstrip-onto : (s t : Text) → is_text t ≡ true → rstrip t ≡ t → rstrip (s ++ t) ≡ s ++ t
rstrip-onto [] t n h = h
rstrip-onto (c ∷ s) t n h =
    ap (end_at c) (rstrip-onto s t n h) ∙ end_at-text c (s ++ t) (is_text-onto s t n)

starts_with-solid :
    (k t p : Text)
    → is_solid k ≡ true
    → has_char b'=' p ≡ false
    → is_solid p ≡ false
    → starts_with (k ++ (b'=' ∷ t)) p ≡ false
starts_with-solid k t [] hk he hp = ground arith
starts_with-solid [] t (b ∷ p) hk he hp = ground arith
starts_with-solid (a ∷ k) t (b ∷ p) hk he hp = ground (arith, starts_with-solid k t p)

last_of-append : (c : ℕ) (s : Text) (d : ℕ) → last_of c (s ++ (d ∷ [])) ≡ d
last_of-append c [] d = refl
last_of-append c (e ∷ s) d = last_of-append e s d

drop_last-append : (s : Text) (d : ℕ) → drop_last (s ++ (d ∷ [])) ≡ s
drop_last-append [] d = refl
drop_last-append (c ∷ []) d = refl
drop_last-append (c ∷ e ∷ s) d = ap (λ l. c ∷ l) (drop_last-append (e ∷ s) d)

unquoted-quoted : (v : Text) → unquoted (b'"' ∷ (v ++ (b'"' ∷ []))) ≡ v
unquoted-quoted v = ground (arith, last_of-append b'"' v b'"', drop_last-append v b'"')

strip-between :
    (c : ℕ) (s t : Text)
    → is_space c ≡ false
    → is_text t ≡ true
    → rstrip t ≡ t
    → strip (c ∷ (s ++ t)) ≡ c ∷ (s ++ t)
strip-between c s t hc n h = ground (arith, rstrip-onto (c ∷ s) t n h)

-- The value's part of the line.
abbrev in_quotes : Text → Text
in_quotes v = b'"' ∷ (v ++ (b'"' ∷ []))

strip-in_quotes : (v : Text) → strip (in_quotes v) ≡ in_quotes v
strip-in_quotes v = strip-between b'"' v (b'"' ∷ []) refl refl refl

rstrip-in_quotes : (v : Text) → rstrip (b'=' ∷ in_quotes v) ≡ b'=' ∷ in_quotes v
rstrip-in_quotes v = rstrip-onto (b'=' ∷ b'"' ∷ v) (b'"' ∷ []) refl refl

entry_of-in_quotes :
    (k v : Text) → IsWritable (k, v) → entry_of (strip k) (strip (in_quotes v)) ≡ some (k, v)
entry_of-in_quotes k v h =
    let hk = strip-solid k h.1 in
    let hv = strip-in_quotes v in let hu = unquoted-quoted v in ground (arith, h.0, h.4)

parse_entry-quoted : (k v : Text) → IsWritable (k, v) → parse_entry (quoted (k, v)) ≡ some (k, v)
parse_entry-quoted k v h =
    let hb = before-append b'=' k (in_quotes v) h.2 in
    let ha = after-append b'=' k (in_quotes v) h.2 in
    let hc = has_char-append b'=' k (b'=' ∷ in_quotes v) in
    let he = entry_of-in_quotes k v h in ground arith

pub parse_line-quoted : (k v : Text) → IsWritable (k, v) → parse_line (quoted (k, v)) ≡ some (k, v)
unfolding parse_line
parse_line-quoted [] v h = cc
parse_line-quoted (c ∷ k) v h =
    let hs = strip-between c k (b'=' ∷ in_quotes v) (ground arith) refl (rstrip-in_quotes v) in
    let hx = starts_with-solid (c ∷ k) (in_quotes v) (text "export ") h.1 refl refl in
    let hp = parse_entry-quoted (c ∷ k) v h in ground arith

-- What the environment has, else what the file has first.
abbrev pub or_file : Option Text → Option Text → Option Text
or_file none v = v
or_file (some u) v = some u

lookup-set_default :
    (j k v : Text) (env : Environ)
    → lookup j (set_default k v env) ≡ or_file (lookup j env) (if k == j then some v else none)
lookup-set_default j k v env = ground (arith, text_eq.same_iff k j, lookup-insert k j v env)

load_lines-quoted :
    (j : Text) (es : Environ) (env : Environ)
    → All IsWritable es
    → lookup j (load_lines (map quoted es) env) ≡ or_file (lookup j env) (lookup j es)
load_lines-quoted j [] env h = ground arith
load_lines-quoted j ((k, v) ∷ es) env h =
    ap (λ p. lookup j (load_lines (map quoted es) (load_parsed p env))) (parse_line-quoted k v h.0)
    ∙ load_lines-quoted j es (set_default k v env) h.1
    ∙ ground (arith, lookup-set_default j k v env)

-- A file of lines `key="value"`, if it is not yet loaded and not to be skipped, gives every name that
-- the environment lacks the first value that the file has for it, and leaves the others; where no
-- key is empty, has white space or `=`, or starts with `#`, and no value has a comment's mark inside
-- unless it starts with `#`.
pub load_dotenv-quoted :
    (j : Text) (es : Environ) (env : Environ)
    → All IsWritable es
    → skips env ≡ false
    → lookup j
        (load_dotenv_if_present
          (some (map quoted es))
          (record { loaded = false; environ = env })).environ
      ≡ or_file (lookup j env) (lookup j es)
unfolding load_dotenv_if_present
load_dotenv-quoted j es env h hs =
    ap (λ b. lookup j (if b then env else load_lines (map quoted es) env)) hs
    ∙ load_lines-quoted j es env h
