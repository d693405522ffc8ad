-- ===== src/Router/Finish/Effects.antt =====
-- What a served request leaves behind.
use intelli_route_team.Common.{
  ℕ, ◌+◌, ◌≡◌, ap, ◌∙◌, true, false, Option, some, List, Text, text_eq, pair_eq, ◌==◌, arith, refl,
  if◌then◌else◌, beq_refl,
}
use intelli_route_team.Common.Dict.{is_some, lookup-insert}
use intelli_route_team.Common.Float.{Float, of_ℕ}
use intelli_route_team.CostTracker.Accounting.{
  TenantRollup, CostAccountant, rollup_of, record_event,
}
use intelli_route_team.CostTracker.Service.Totals.{rollup_of-record_event}
use intelli_route_team.Router.Provider.{Intent, CompletionRequest}
use intelli_route_team.Router.Dispatch.{record_brownout_result}
use intelli_route_team.Router.Quota.{
  QuotaSettings, daily_quota_limit, usage, record_successful_completion, DailyQuotaTracker,
}
use intelli_route_team.Router.UserFeedback.{
  CompletionMeta, FeedbackRow, UserFeedbackStore, accepted, tenant_mismatch_for_request_id,
  record_completion, submit_feedback, submit_for, meta_for_request, upserted,
}
use intelli_route_team.Router.Finish.{
  Success, Ledger, PreviewSettings, finish, cost_event, completion_meta, response, estimated_cost,
}

module _ {F : Type 0} ⦃fl : Float F⦄ (settings : QuotaSettings F) (p : PreviewSettings)
    (request_id : Text) (req : CompletionRequest F) (intent : Intent) (r : Success F)
    (s : Ledger F) where
  usage-record :
      (day name : Text) (t : DailyQuotaTracker)
      → usage day name (record_successful_completion day name t) ≡ usage day name t + 1
  unfolding usage record_successful_completion
  usage-record day name t = ground (
    arith,
    lookup-insert (day, name) (day, name) (usage day name t + 1) t.counts,
    beq_refl {A = Text × Text} (day, name),
  )

  -- What a served request is charged. The client is told the tokens that the provider reports; the
  -- cost tracker adds to the tenant's account one request, those tokens, and a cost of the price per
  -- thousand tokens times their number in thousandths, which the client is told to six places; and
  -- the provider is used once more on that day if it has a limit, else as often as before. A
  -- whole number divided by 1000 is taken to be their ratio, correctly rounded.
  pub finish-charged :
      (thousandths : (n : ℕ) → fl.div (of_ℕ n) (of_ℕ 1000) ≡ fl.ratio n 1000) (a : CostAccountant F)
      → let (s', event, resp) = finish settings p request_id req intent r s in
        let before = rollup_of req.tenant_id a in
        let after = rollup_of req.tenant_id (record_event event a) in
        let used = r.reply.prompt_tokens + r.reply.completion_tokens in
        let cost = fl.mul (fl.ratio used 1000) r.info.cost_per_1k_tokens in
        (resp.prompt_tokens ≡ r.reply.prompt_tokens)
        × (resp.completion_tokens ≡ r.reply.completion_tokens)
        × (resp.total_tokens ≡ used)
        × (resp.estimated_cost_usd ≡ fl.round_to 6 cost)
        × (after.total_requests ≡ before.total_requests + 1)
        × (after.total_tokens ≡ before.total_tokens + used)
        × (after.total_cost_usd ≡ fl.add before.total_cost_usd cost)
        × (usage r.day r.info.name s'.router.quotas
            ≡ usage r.day r.info.name s.router.quotas
              + (if is_some (daily_quota_limit r.info.name settings) then 1 else 0))
  unfolding finish cost_event response estimated_cost record_brownout_result
  finish-charged thousandths a =
      let used = r.reply.prompt_tokens + r.reply.completion_tokens in
      let exact = ap (λ q. fl.mul q r.info.cost_per_1k_tokens) (thousandths used) in
      let charged = rollup_of-record_event (cost_event request_id req r) a in
      (
        refl,
        refl,
        refl,
        ap (fl.round_to 6) exact,
        ap (λ (t : TenantRollup F). t.total_requests) charged,
        ap (λ (t : TenantRollup F). t.total_tokens) charged,
        ap (λ (t : TenantRollup F). t.total_cost_usd) charged
            ∙ ap (fl.add (rollup_of req.tenant_id a).total_cost_usd) exact,
        ground (arith, usage-record r.day r.info.name s.router.quotas),
      )

  found :
      (choose : List (CompletionMeta F) → Option (CompletionMeta F)) (m : CompletionMeta F)
      (u : UserFeedbackStore F)
      → meta_for_request choose m.request_id (record_completion m u) ≡ some m
  unfolding meta_for_request record_completion
  found choose m u =
      rw (lookup-insert m.request_id m.request_id m u.completions) (rw (beq_refl m.request_id) refl)

  -- A client can rate a request that was served as soon as it has the response, under the request's
  -- tenant: the row has the response's provider, model and tokens.
  pub finish-rated :
      (choose : List (CompletionMeta F) → Option (CompletionMeta F))
      (tenant_id rating comment : Text) (now : F)
      → req.tenant_id == tenant_id ≡ true
      → let (s', event, resp) = finish settings p request_id req intent r s in
        let answer =
          (submit_feedback choose tenant_id request_id rating comment now s'.user_feedback).1 in
        (row : FeedbackRow F) × (answer ≡ accepted row)
        × (row.tenant_id ≡ req.tenant_id)
        × (row.provider ≡ resp.provider)
        × (row.model ≡ resp.model)
        × (row.total_tokens ≡ resp.total_tokens)
  unfolding finish response completion_meta submit_feedback submit_for upserted
  finish-rated choose tenant_id rating comment now same =
      rw (found choose (completion_meta p request_id req intent r) s.user_feedback)
        (rw same (_, refl, refl, refl, refl, refl))

  -- Another tenant cannot rate it.
  pub finish-not_rated :
      (choose : List (CompletionMeta F) → Option (CompletionMeta F))
      (tenant_id rating comment : Text) (now : F)
      → req.tenant_id == tenant_id ≡ false
      → let s' = (finish settings p request_id req intent r s).0 in
        (submit_feedback choose tenant_id request_id rating comment now s'.user_feedback).1
        ≡ tenant_mismatch_for_request_id
  unfolding finish completion_meta submit_feedback submit_for
  finish-not_rated choose tenant_id rating comment now other =
      rw (found choose (completion_meta p request_id req intent r) s.user_feedback) (rw other refl)
