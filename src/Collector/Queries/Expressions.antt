-- ===== src/Collector/Queries/Expressions.antt =====
-- QueryMap of internal/collector/queries.go: the expressions of the queries by their names.
use koku_metrics_operator.Base.{String, List, ◌++◌, none, some}
use koku_metrics_operator.Base.Dict.{lookup}
use koku_metrics_operator.Collector.Queries.CostExpressions.{cost_expressions}
use koku_metrics_operator.Collector.Queries.RosExpressions.{ros_expressions}

unfoldable pub query_map : List (String × String)
query_map = cost_expressions ++ ros_expressions

-- `QueryMap[key]`: the empty text, if the key is missing.
unfoldable pub expr : String → String
unfolding query_map lookup
expr key = elim (lookup key query_map) [ none ↦ "" | some e ↦ e ]
