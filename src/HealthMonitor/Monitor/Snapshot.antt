-- ===== src/HealthMonitor/Monitor/Snapshot.antt =====
-- What the router learns from a snapshot, and what the statistics count.
use intelli_route_team.Common.{
  ◌+◌, ◌≡◌, refl, Bool, false, some, [], ◌∷◌, map, arith, Text, text_eq, text_beq_iff,
  if◌then◌else◌, length, count_by, Bool-cases, inl, inr, ◌==◌,
}
use intelli_route_team.Common.Dict.{Dict, lookup, lookup-insert}
use intelli_route_team.Common.Float.{Float}
use intelli_route_team.HealthMonitor.Breaker.{
  CircuitBreaker, open_, cooled_down, is_open, is_half_open, is_closed, allow_request,
  record_success, record_failure,
}
use intelli_route_team.HealthMonitor.Monitor.{
  HealthMonitor, ProviderHealth, get_breaker, report, snapshot, stats, advance, health_of,
}

module _ {F : Type 0} ⦃fl : Float F⦄ where
  lookup-map-advance :
      (k : Text) (now wall : F) (d : Dict Text (CircuitBreaker F)) (h : ProviderHealth F)
      → lookup k (map (λ kv. (kv.0, health_of kv.0 wall kv.1)) (map (advance now) d)) ≡ some h
      → (b : CircuitBreaker F) × (lookup k d ≡ some b)
        × (h ≡ health_of k wall (allow_request now b).0)
  lookup-map-advance k now wall [] h e = cc
  lookup-map-advance k now wall ((j, b) ∷ d) h e = elim (Bool-cases (j == k)) [
    | inl same ↦ (b, rw same, ground (arith, text_beq_iff j k))
    | inr other ↦
        let (c, found, eq) = lookup-map-advance k now wall d h (ground arith) in
        (c, rw other found, eq)
  ]

  -- A provider that a snapshot shows as open has an open breaker whose cooldown is not over at the
  -- time of the snapshot, and the snapshot does not call it healthy.
  pub snapshot_shows_open :
      (k : Text) (now wall : F) (m : HealthMonitor F) (h : ProviderHealth F)
      → lookup k (snapshot now wall m).1 ≡ some h
      → h.circuit_state ≡ open_
      → (h.healthy ≡ false)
        × ((b : CircuitBreaker F) × (lookup k m.breakers ≡ some b)
            × (b.state ≡ open_)
            × (cooled_down now b ≡ false))
  unfolding snapshot allow_request
  snapshot_shows_open k now wall m h e o =
      let (b, found, eq) = lookup-map-advance k now wall m.breakers h e in
      (ground arith, (b, found, ground arith, ground arith))

  count_states :
      (d : Dict Text (CircuitBreaker F))
      → count_by (λ kv. is_open kv.1.state) d
          + count_by (λ kv. is_half_open kv.1.state) d
          + count_by (λ kv. is_closed kv.1.state) d
        ≡ length d
  count_states [] = omega arith
  count_states ((k, b) ∷ d) = ground (arith, count_states d)

  -- The three counts of the statistics add up to the number of breakers, and a report adds one to
  -- the reports received, records its outcome in its provider's breaker and touches no other.
  pub report-stats :
      (p k : Text) (ok : Bool) (now : F) (m : HealthMonitor F)
      → let m' = report p ok now m in
        ((stats m').open_circuits + (stats m').half_open_circuits + (stats m').closed_circuits
          ≡ length m'.breakers)
        × ((stats m').total_reports_received ≡ (stats m).total_reports_received + 1)
        × (lookup k m'.breakers ≡ (
            if p == k
            then some (
                if ok
                then record_success (get_breaker p m)
                else record_failure now (get_breaker p m))
            else lookup k m.breakers))
  unfolding stats report
  report-stats p k ok now m =
      (count_states (report p ok now m).breakers, refl, lookup-insert p k _ m.breakers)
