-- ===== src/Router/Answering/Decision.antt =====
-- The decision that is shown is the decision that is taken.
use intelli_route_team.Common.{
  ℕ, suc, ◌≤◌, ◌≡◌, true, All, All-weaken_by, any_by, beq_refl, count_by, text_eq, ◌==◌, false,
  Option, none, some, List, [], ◌∷◌, map, Text, arith, refl,
}
use intelli_route_team.Common.Float.{Float}
use intelli_route_team.Router.Provider.{Intent, ScoredProvider, CompletionRequest}
use intelli_route_team.Router.Brownout.{BrownoutSnapshot, BrownoutManager}
use intelli_route_team.Router.Classify.{classify}
use intelli_route_team.Router.Dispatch.{
  is_reasoning_or_batch, RouterState, RouterConfig, Answers, Dispatch, no_providers_registered,
  quota_exhausted, attempts, prepare_routing, clamp_tokens, begin_completion, after_ranking,
}
use intelli_route_team.Common.Sort.{sum_by}
use intelli_route_team.Router.Completion.{
  Environment, BudgetContext, RouteState, Served, RouteResult, route, start,
}
use intelli_route_team.Router.Completion.Measure.{measure, Returns}
use intelli_route_team.Router.Completion.Complete.{named, is_about, IsEarned, route_accounts}
use intelli_route_team.Router.Answering.{RouteDecision, name_of, shown, quota_verdict, decide}

all_named : (names : List Text) → All (λ k. any_by (λ n. n == k) names ≡ true) names
all_named [] = tt
all_named (x ∷ xs) = (
  ground (arith, beq_refl x),
  All-weaken_by (λ k. any_by (λ n. n == k) xs ≡ true) (λ k. any_by (λ n. n == k) (x ∷ xs) ≡ true) xs
      (λ k h. ground (arith, h)) (all_named xs),
)

module _ {F : Type 0} ⦃fl : Float F⦄ where
  -- The names that a decision shows; `none` is the status 429.
  abbrev pub ranked_of : Option (RouteDecision F) → Option (List Text)
  ranked_of none = none
  ranked_of (some d) = some d.ranked

  -- What `complete` does where `decide` shows those names.
  abbrev pub names_of : Dispatch F → Option (List Text)
  names_of no_providers_registered = some []
  names_of quota_exhausted = none
  names_of (attempts req left) = some (map name_of left)

  -- An interactive request or one for code is never clamped.
  pub unclamped :
      (bs : BrownoutSnapshot F) (req : CompletionRequest F) (m : BrownoutManager F)
      → is_reasoning_or_batch (classify req) ≡ false
      → clamp_tokens bs req m ≡ req
  unfolding clamp_tokens
  unclamped bs req m h = ground arith

  names-shown :
      (intent : Intent) (mode : Text) (bs : BrownoutSnapshot F) (req : CompletionRequest F)
      (elapsed : F) (ranked left : List (ScoredProvider F)) (s : RouterState F)
      → ranked_of (shown intent mode bs (quota_verdict ranked left))
        ≡ names_of (after_ranking req elapsed ranked left s).1
  names-shown intent mode bs req elapsed [] left s = refl
  names-shown intent mode bs req elapsed (r ∷ ranked) [] s = refl
  names-shown intent mode bs req elapsed (r ∷ ranked) (l ∷ left) s = refl

  -- For a request whose tokens a brownout does not clamp, `decide` shows the ranking on which the
  -- attempts of its execution begin.
  decide-names :
      (config : RouterConfig F) (answers : Answers F) (req : CompletionRequest F)
      (s : RouterState F)
      → (let (s', bs, candidates) = prepare_routing config answers req s in
          clamp_tokens bs req s'.brownout_manager ≡ req)
      → ranked_of (decide config answers req s).1
        ≡ names_of (begin_completion config answers req s).1
  unfolding decide begin_completion
  decide-names config answers req s h = rw h (names-shown _ _ _ _ _ _ _ _)

  -- The names that a decision shows, and the providers with which the attempts of an execution
  -- begin: none where it is refused.
  abbrev pub shown_names : Option (RouteDecision F) → List Text
  shown_names none = []
  shown_names (some d) = d.ranked

  abbrev pub attempted : Dispatch F → List (ScoredProvider F)
  attempted no_providers_registered = []
  attempted quota_exhausted = []
  attempted (attempts req left) = left

  shown_names-attempted :
      (d : Option (RouteDecision F)) (b : Dispatch F)
      → ranked_of d ≡ names_of b
      → shown_names d ≡ map name_of (attempted b)
  shown_names-attempted none no_providers_registered h = cc
  shown_names-attempted none quota_exhausted h = refl
  shown_names-attempted none (attempts req left) h = cc
  shown_names-attempted (some d) no_providers_registered h = cc
  shown_names-attempted (some d) quota_exhausted h = cc
  shown_names-attempted (some d) (attempts req left) h = cc

  named-map :
      (k : Text) (left : List (ScoredProvider F))
      → any_by (λ n. n == k) (map name_of left) ≡ true
      → 1 ≤ sum_by (named k) left
  named-map k [] h = cc
  named-map k (x ∷ xs) h = ground (arith, named-map k xs)

  all_providers_named :
      (left : List (ScoredProvider F))
      → All (λ s. any_by (λ n. n == name_of s) (map name_of left) ≡ true) left
  all_providers_named [] = tt
  all_providers_named (x ∷ xs) = (
    ground (arith, beq_refl (name_of x)),
    All-weaken_by (λ s. any_by (λ n. n == name_of s) (map name_of xs) ≡ true)
        (λ s. any_by (λ n. n == name_of s) (map name_of (x ∷ xs)) ≡ true) xs
        (λ s h. ground (arith, h)) (all_providers_named xs),
  )

  -- The served provider is among the names, and the answer is its own.
  pub record IsShown (env : Environment F) (names : List Text) (v : Served F) (st : RouteState F)
      : Type 0 where
    pub shown : any_by (λ n. n == name_of v.provider) names ≡ true
    pub answered : v.result ≡ env.call st.attempts v.provider.provider
    pub succeeded : v.result.ok ≡ true

  module _ (env : Environment F) (budget : BudgetContext F) (max_tokens : ℕ) (intent : Intent) where
    gather :
        (names : List Text) (k : Text) (ks : List Text) (res : RouteResult F)
        → All
            (λ k.
              Returns
                (λ st. 1 ≤ count_by (is_about k) st.log)
                (IsEarned env budget max_tokens intent k (λ s. any_by (λ n. n == name_of s) names))
                res)
            (k ∷ ks)
        → Returns
            (λ st. All (λ k. 1 ≤ count_by (is_about k) st.log) (k ∷ ks))
            (IsShown env names)
            res
    gather names k ks RouteResult.out_of_fuel h = h.0
    gather names k ks (RouteResult.all_failed st) h =
        (All-weaken_by _ (λ k. 1 ≤ count_by (is_about k) st.log) (k ∷ ks) (λ k r. r.0) h, h.0.1)
    gather names k ks (RouteResult.completed v st) h = record {
      shown = h.0.passes;
      answered = h.0.answered;
      succeeded = h.0.succeeded;
    }

    attempts_account :
        (left : List (ScoredProvider F))
        → let names = map name_of left in
          Returns
            (λ st. All (λ k. 1 ≤ count_by (is_about k) st.log) names)
            (IsShown env names)
            (route env budget max_tokens intent (suc (measure (start left))) (start left))
    unfolding route
    attempts_account [] = (tt, refl)
    attempts_account (x ∷ xs) =
        let left = x ∷ xs in
        let names = map name_of left in
        gather names (name_of x) (map name_of xs) _ (
          All-weaken_by (λ k. any_by (λ n. n == k) names ≡ true) _ names
            (λ k shown.
              route_accounts env budget max_tokens intent k
                (λ s. any_by (λ n. n == name_of s) names) (suc (measure (start left))) left
                (omega arith) (named-map k left shown) (all_providers_named left))
            (all_named names))

  -- For a request whose tokens a brownout does not clamp, what `decide` shows binds its execution in
  -- the same state, in whatever order the budget gate and the fallbacks try the providers, and
  -- whatever the other services and the providers answer. The attempts end (with fuel for all that
  -- the ranking allows). If they fail, each provider that `decide` shows was called, limited, over
  -- its quota or out of retries; if they serve, it is by a provider that `decide` shows, with that
  -- provider's own successful answer. A refused execution counts as one without providers.
  pub decide_binds :
      (config : RouterConfig F) (answers : Answers F) (req : CompletionRequest F)
      (s : RouterState F) (env : Environment F) (budget : BudgetContext F)
      → (let (s', bs, candidates) = prepare_routing config answers req s in
          clamp_tokens bs req s'.brownout_manager ≡ req)
      → let names = shown_names (decide config answers req s).1 in
        let left = attempted (begin_completion config answers req s).1 in
        Returns
          (λ st. All (λ k. 1 ≤ count_by (is_about k) st.log) names)
          (IsShown env names)
          (route env budget req.max_tokens (classify req) (suc (measure (start left))) (start left))
  decide_binds config answers req s env budget h =
      let left = attempted (begin_completion config answers req s).1 in
      let same = shown_names-attempted _ _ (decide-names config answers req s h) in
      rw same (attempts_account env budget req.max_tokens (classify req) left)
