-- ===== src/Endpoints/Stats.antt =====
-- utils/client.py: the statistics of an endpoint count the results that it had.
use aurora_rl.Base.{
  ℕ, ◌+◌, ◌≡◌, refl, inl, inr, Bool, ◌&&◌, not, List, [], ◌∷◌, Bool-cases, if◌then◌else◌, arith,
}
use aurora_rl.Base.Names.{Name, same_name, same_name→eq}
use aurora_rl.Base.Dict.{lookup, insert, lookup-insert}
use aurora_rl.Endpoints.Types.{EndpointOperationResult, EndpointStats, is_ok, record_result}
use aurora_rl.Endpoints.Pool.{
  Pool, or_empty, or_no_stats, stats_of, record_endpoint_result, record_endpoint_results,
}

unfoldable pub stats_at : Pool → Name → Name → EndpointStats
stats_at p endpoint operation = stats_of (or_empty (lookup endpoint p.endpoint_stats)) operation

unfoldable pub concerns : Name → Name → EndpointOperationResult → Bool
concerns endpoint operation result =
    same_name result.endpoint endpoint && same_name result.operation operation

-- How many results an endpoint had for an operation, and how many of them were errors.
unfoldable pub count_results : Name → Name → List EndpointOperationResult → ℕ
unfolding concerns
count_results endpoint operation [] = 0
count_results endpoint operation (result ∷ results) =
    (if concerns endpoint operation result then 1 else 0) + count_results endpoint operation results

unfoldable pub count_errors : Name → Name → List EndpointOperationResult → ℕ
unfolding concerns
count_errors endpoint operation [] = 0
count_errors endpoint operation (result ∷ results) =
    (if concerns endpoint operation result && not (is_ok result) then 1 else 0)
    + count_errors endpoint operation results

stats_at-record :
    (result : EndpointOperationResult) (p : Pool) (endpoint operation : Name)
    → stats_at (record_endpoint_result result p) endpoint operation ≡ (
        if concerns endpoint operation result
        then record_result (stats_at p endpoint operation) result
        else stats_at p endpoint operation)
unfolding stats_at record_endpoint_result concerns stats_of or_empty or_no_stats
stats_at-record result p endpoint operation =
    elim (Bool-cases (same_name result.endpoint endpoint)) [
      | inr elsewhere ↦
          rw (lookup-insert endpoint result.endpoint updated p.endpoint_stats, elsewhere) refl
      | inl here ↦
          let same = same_name→eq result.endpoint endpoint here in
          rw (lookup-insert endpoint result.endpoint updated p.endpoint_stats, here, ← same)
            (elim (Bool-cases (same_name result.operation operation)) [
              | inr other ↦ rw (lookup-insert operation result.operation new old, other) refl
              | inl this ↦
                  let same_op = same_name→eq result.operation operation this in
                  rw (lookup-insert operation result.operation new old, this, ← same_op) refl
            ])
    ]
  where
    old : List (Name × EndpointStats)
    old = or_empty (lookup result.endpoint p.endpoint_stats)

    new : EndpointStats
    new = record_result (stats_of old result.operation) result

    updated : List (Name × EndpointStats)
    updated = insert result.operation new old

-- The counts of an endpoint's statistics for an operation grow by the results that it had for it, and
-- by the errors among them.
pub record_endpoint_results-counts :
    (results : List EndpointOperationResult) (p : Pool) (endpoint operation : Name)
    → let before = stats_at p endpoint operation in
      let after = stats_at (record_endpoint_results results p) endpoint operation in
      (after.requests ≡ before.requests + count_results endpoint operation results)
      × (after.errors ≡ before.errors + count_errors endpoint operation results)
unfolding record_endpoint_results count_results count_errors record_result
record_endpoint_results-counts [] p endpoint operation = (omega arith, omega arith)
record_endpoint_results-counts (result ∷ results) p endpoint operation =
    let (requests, errors) =
      record_endpoint_results-counts results (record_endpoint_result result p) endpoint operation in
    let step = stats_at-record result p endpoint operation in (ground arith, ground arith)
