-- ===== src/Tests/Services.antt =====
-- The theorems on the check of the source, applied to an API that has no source.
use koku_metrics_operator.Base.{◌≤◌, ◌≡◌, String, true, [], ◌∷◌, ok, ◌⊎◌}
use koku_metrics_operator.Sources.{Api, SourceHandler, source_get_or_create}
use koku_metrics_operator.Sources.Posts.{posts, WasFree, source_get_or_create-posts}
use koku_metrics_operator.Sources.Defined.{IsExplained, source_get_or_create-IsExplained}

abbrev empty_api : Api
empty_api = record {
  send = λ log request. ok "{}";
  unmarshal_types =
      λ body. ok (record { count = 1; items = record { id = "1"; name = "openshift" } ∷ [] });
  unmarshal_sources = λ body. ok (record { count = 0; items = [] });
  unmarshal_source =
      λ body. ok (record { id = "7"; name = "cluster"; source_type_id = "1"; source_ref = "abc" });
}

abbrev some_handler : SourceHandler
some_handler = record { source_name = "cluster"; cluster_id = "abc"; create_source = true }

source_get_or_create-posts_example :
    (posts (source_get_or_create empty_api some_handler []).1 ≡ 0)
    ⊎ (((true ≡ true) × ((type_id : String) × WasFree empty_api some_handler type_id))
        × (posts (source_get_or_create empty_api some_handler []).1 ≤ 2))
unfolding posts
source_get_or_create-posts_example = source_get_or_create-posts empty_api some_handler []

source_get_or_create-IsExplained_example :
    IsExplained empty_api some_handler (source_get_or_create empty_api some_handler []).0
source_get_or_create-IsExplained_example =
    source_get_or_create-IsExplained empty_api some_handler []
