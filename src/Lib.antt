-- ===== src/Lib.antt =====
-- A verification library for IntelliRoute (intelliroute/), a router in front of language-model
-- providers. Services call one another over HTTP: the router (intelliroute/router) classifies and
-- ranks a request, and tries providers in turn (intelliroute/mock_provider is one); before a call it asks the rate limiter
-- (intelliroute/rate_limiter), after it it tells the health monitor (intelliroute/health_monitor)
-- and the cost tracker (intelliroute/cost_tracker). Clients talk to the gateway (intelliroute/gateway).
--
-- Which file models which code:
--   RateLimiter/Bucket, Key, Store     rate_limiter/token_bucket.py: TokenBucket, bucket keys,
--                                      RateLimiterStore with its layers, log and replay
--   RateLimiter/Store/Replication      rate_limiter/main.py: log_since and _log_sync_loop
--   RateLimiter/Election               rate_limiter/election.py: LeaderElection
--   RateLimiter/Service                rate_limiter/main.py: check, the deny rate of stats, and in
--                                      Setup and Endpoints the peers, the other endpoints and the
--                                      rounds of the background loops
--   HealthMonitor/Breaker              health_monitor/circuit_breaker.py: CircuitBreaker
--   HealthMonitor/Monitor              health_monitor/main.py: register, report, snapshot, stats,
--                                      one round of _poll_loop
--   CostTracker/Accounting             cost_tracker/accounting.py: CostAccountant
--   CostTracker/Service                cost_tracker/main.py: events, history and stats
--   Router/Queue                       router/queue.py: RequestQueue
--   Router/Provider                    common/models.py and router/policy.py: the data
--   Router/Policy                      router/policy.py: rank
--   Router/PolicyEngine                router/policy_engine: PolicyEvaluator
--   Router/Tuner, Feedback             router/weight_tuner.py, router/feedback.py
--   Router/Classify                    router/intent.py
--   Router/UserFeedback                router/user_feedback_store.py
--   Router/Modes                       router/main.py: modes, _rank_candidates, waits
--   Router/Dispatch                    router/main.py: complete, _prepare_routing and
--                                      _execute_completion up to its loop
--   Router/Worker                      router/main.py: the passes of _queue_worker
--   Router/Fallback                    router/policy.py: reorder_after_failure; router/main.py: the
--                                      fallback ladder
--   Router/Quota                       router/provider_daily_quota.py
--   Router/Brownout                    router/brownout.py: BrownoutManager
--   Router/Registry                    router/registry.py: ProviderRegistry
--   Router/Completion                  router/main.py: the loop of _execute_completion
--   Router/Finish                      router/main.py: the end of _execute_completion
--   Router/Answering                   router/main.py: decide and the end of complete's wait
--   Config                             common/env.py, config.py, provider_mode.py and
--                                      mock_provider_catalog.py; router/main.py: _bootstrap_registry
--   Router/Client                      router/provider_clients.py; router/main.py: _call_provider
--   Gateway                            gateway/main.py
--   MockProvider                       mock_provider/main.py: faults, chat, registration loop
-- Common holds lists, dictionaries, strings, sorting and numbers; each folder's Tests the runs at
-- concrete inputs.
--
-- How code is modelled. An object is a record, a method a function from the record to the new record
-- and the answer; a lock makes a method one step, so interleavings of threads are sequences of calls
-- (Call, Event). The clock, the day and the answers of other services are arguments. A Python dict is
-- an association list in insertion order, a string the list of its code points (case and white space
-- are those of ASCII). Floating-point numbers are an abstract type with the operations of the record
-- Float (round among them); a theorem that needs laws of them takes IsFloat, of which the natural
-- numbers and the integers are instances, and IsUnitFloat, IsExact or IsWhole where
-- more is needed. A token count or a counter is a natural number.
--
-- Fuel. The loop of _execute_completion runs on fuel; the results about it take fuel above the number
-- of attempts that the ranking allows (Completion/Measure), and then it does not run out. The ten
-- rounds of dequeue are counted down.
--
-- Not modelled: what a worker does with the future of a request; the router's administrative
-- endpoints; the defaults of most settings; the regular expressions that score a
-- prompt's complexity and a response; and, as plumbing, HTTP and JSON, logging, the evaluation
-- harness, scripts and the front end.
pub mod Common
pub mod RateLimiter
pub mod HealthMonitor
pub mod CostTracker
pub mod Router
pub mod Gateway
pub mod MockProvider
pub mod Config
