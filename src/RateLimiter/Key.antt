-- ===== src/RateLimiter/Key.antt =====
-- Bucket keys, `"tenant|provider"`, and how token_bucket.py takes them apart.
use intelli_route_team.Common.{
  ℕ, ◌≡◌, refl, Bool, true, false, ◌||◌, [], ◌∷◌, ◌++◌, arith, Text, if◌then◌else◌, nat_beq,
}

-- `"|"` and `"*"`
abbrev pub bar : ℕ
bar = b'|'

abbrev pub wildcard : Text
wildcard = b'*' ∷ []

-- `"|" in key`
abbrev pub has_bar : Text → Bool
has_bar [] = false
has_bar (c ∷ key) = nat_beq c bar || has_bar key

-- `f"{tenant}|{provider}"`
abbrev pub pair_key : Text → Text → Text
pair_key tenant provider = tenant ++ (bar ∷ provider)

-- `key.partition("|")[0]`, `key.split("|", 1)[0]`
abbrev pub head_of : Text → Text
head_of [] = []
head_of (c ∷ key) = if nat_beq c bar then [] else c ∷ head_of key

-- `key.partition("|")[2]`: empty if there is no bar
abbrev pub tail_of : Text → Text
tail_of [] = []
tail_of (c ∷ key) = if nat_beq c bar then key else tail_of key

pub has_bar-pair_key : (t p : Text) → has_bar (pair_key t p) ≡ true
has_bar-pair_key [] p = refl
has_bar-pair_key (c ∷ t) p = ground (arith, has_bar-pair_key t p)

pub head_of-pair_key : (t p : Text) → has_bar t ≡ false → head_of (pair_key t p) ≡ t
head_of-pair_key [] p h = refl
head_of-pair_key (c ∷ t) p h = ground (arith, head_of-pair_key t p)

pub tail_of-pair_key : (t p : Text) → has_bar t ≡ false → tail_of (pair_key t p) ≡ p
tail_of-pair_key [] p h = refl
tail_of-pair_key (c ∷ t) p h = ground (arith, tail_of-pair_key t p)

pub has_bar-head_of : (k : Text) → has_bar (head_of k) ≡ false
has_bar-head_of [] = refl
has_bar-head_of (c ∷ k) = ground (arith, has_bar-head_of k)

pub split_join : (k : Text) → has_bar k ≡ true → pair_key (head_of k) (tail_of k) ≡ k
split_join [] h = cc
split_join (c ∷ k) h = ground (arith, split_join k)
