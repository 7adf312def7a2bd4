-- ===== src/Crhchttp/Scrub.antt =====
-- scrubAuthorization of internal/crhchttp/http_cloud_dot_redhat.go.
use Prim.Native.String.{len}
use koku_metrics_operator.Base.{String, List, [], ◌∷◌, map, if◌then◌else◌}
use koku_metrics_operator.Base.Text.{contains, join}
use koku_metrics_operator.Base.Split.{split, stars}

-- `slice[idx] = strings.Repeat("*", len(slice[idx]))` for the last index.
unfoldable pub star_last : List String → List String
unfolding stars
star_last [] = []
star_last (piece ∷ []) = stars (len piece) ∷ []
star_last (piece ∷ next ∷ pieces) = piece ∷ star_last (next ∷ pieces)

unfoldable pub scrub_line : String → String
unfolding contains split join star_last
scrub_line s = if contains s "Authorization" then join (star_last (split s " ")) " " else s

-- scrubAuthorization
unfoldable pub scrub_authorization : String → String
unfolding scrub_line split join
scrub_authorization dump = join (map scrub_line (split dump "\r\n")) "\r\n"
