-- ===== src/Provider/Metrics.antt =====
-- internal/edgecenter/metrics.go: the metrics and their registration; help texts and buckets are left out. The registry of Kubernetes'
-- component-base is a parameter.
use edgecenter_ccm.Prelude.{Str, List, [], ◌∷◌, codes, Exec, pure, attempt, ◌>>◌}

-- legacyregistry.Register of a metric by its name; Add(0) and Observe(0) for labels
pub record Registry (State : Type 0) : Type 0 where
  pub register : Str → Exec State (Unit {0})
  pub add_zero : Str → List Str → Exec State (Unit {0})
  pub observe_zero : Str → List Str → Exec State (Unit {0})

-- A counter or histogram: its subsystem, its name and its labels
pub record MetricVec : Type 0 where
  pub subsystem : Str
  pub name : Str
  pub labels : List Str

abbrev metric : Str → List Str → MetricVec
metric name labels = record { subsystem = codes "edgecenter"; name = name; labels = labels }

unfoldable pub api_requests_total : MetricVec
api_requests_total =
    metric (codes "api_requests_total") (codes "method" ∷ codes "path" ∷ codes "code" ∷ [])

unfoldable pub api_request_duration : MetricVec
api_request_duration =
    metric (codes "api_request_duration_seconds")
      (codes "method" ∷ codes "path" ∷ codes "code" ∷ [])

unfoldable pub api_request_errors_total : MetricVec
api_request_errors_total =
    metric (codes "api_request_errors_total") (codes "method" ∷ codes "path" ∷ codes "reason" ∷ [])

unfoldable pub edgecenter_operation_duration : MetricVec
edgecenter_operation_duration = metric (codes "operation_duration_seconds") (codes "operation" ∷ [])

unfoldable pub edgecenter_operation_errors_total : MetricVec
edgecenter_operation_errors_total = metric (codes "operation_errors_total") (codes "operation" ∷ [])

module _ {State : Type 0} (registry : Registry State) where
  -- A metric that cannot be registered is only logged.
  register_all : List MetricVec → Exec State (Unit {0})
  register_all [] = pure tt
  register_all (m ∷ metrics) = do attempt (registry.register m.name); register_all metrics

  -- RegisterMetrics
  unfoldable pub register_metrics : Exec State (Unit {0})
  unfolding register_all api_requests_total api_request_duration api_request_errors_total
      edgecenter_operation_duration edgecenter_operation_errors_total
  register_metrics = do
    register_all (
        api_requests_total ∷ api_request_duration ∷ api_request_errors_total
        ∷ edgecenter_operation_duration ∷ edgecenter_operation_errors_total ∷ [])
    registry.add_zero (codes "api_requests_total")
        (codes "GET" ∷ codes "/__init__" ∷ codes "0" ∷ [])
    registry.observe_zero (codes "operation_duration_seconds") (codes "__init__" ∷ [])
