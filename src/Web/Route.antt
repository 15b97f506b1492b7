-- ===== src/Web/Route.antt =====
-- The paths of `handleContainerDetail` in pkg/web/server.go: which view of a container is asked for,
-- and of which container.
use ctop.Prelude.{Bool, ◌||◌, [], ◌∷◌, if◌then◌else◌}
use ctop.Prelude.Texts.{Text, codes, trim_space, trim_prefix, contains}
use ctop.Prelude.Split.{has_suffix, trim_suffix}

pub data View : Type 0 where
  detail top changes log_stream logs files file search probes proxy endpoints mutation : View

abbrev with_prefix : Text → Text → Text
with_prefix [] path = path
with_prefix (c ∷ cs) path = trim_prefix path (c ∷ cs)

unfoldable pub detail_path : Text → Text → Text
detail_path url_prefix path =
    trim_space (trim_prefix (with_prefix url_prefix path) (codes "/api/v1/containers/"))

abbrev pub traverses_path : Text → Bool
traverses_path path = contains path (codes "..") || contains path (b'\\' ∷ [])

abbrev either_suffix : Text → Text → Text → Bool
either_suffix path a b = has_suffix path a || has_suffix path b

abbrev without : Text → Text → Text
without path a = trim_space (trim_suffix path a)

abbrev without_both : Text → Text → Text → Text
without_both path a b = trim_space (trim_suffix (trim_suffix path a) b)

unfoldable pub view_of : Text → View × Text
view_of path =
    if has_suffix path (codes "/top")
    then (top, without path (codes "/top"))
    else if either_suffix path (codes "/diff") (codes "/changes")
    then (changes, without_both path (codes "/diff") (codes "/changes"))
    else if has_suffix path (codes "/logs/stream")
    then (log_stream, without path (codes "/logs/stream"))
    else if either_suffix path (codes "/logs") (codes "/log")
    then (logs, without_both path (codes "/logs") (codes "/log"))
    else if has_suffix path (codes "/files")
    then (files, without path (codes "/files"))
    else if has_suffix path (codes "/file")
    then (file, without path (codes "/file"))
    else if either_suffix path (codes "/search") (codes "/find")
    then (search, without_both path (codes "/search") (codes "/find"))
    else if either_suffix path (codes "/probes") (codes "/probe")
    then (probes, without_both path (codes "/probes") (codes "/probe"))
    else if either_suffix path (codes "/proxy") (codes "/preview")
    then (proxy, without_both path (codes "/proxy") (codes "/preview"))
    else if either_suffix path (codes "/endpoints") (codes "/web-endpoints")
    then (endpoints, without_both path (codes "/endpoints") (codes "/web-endpoints"))
    else if has_suffix path (codes "/upload")
        || has_suffix path (codes "/edit")
        || has_suffix path (codes "/delete")
    then (mutation, path)
    else (detail, path)
