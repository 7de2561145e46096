-- ===== src/Util/Durations.antt =====
-- internal/pkg/util/helpers.go: durations in annotations and targets.
use reloader_operator.Base.{String, ◌==◌, if◌then◌else◌}
use reloader_operator.Kube.{Result, ok}
use reloader_operator.Api.{Duration, pos}
use reloader_operator.Platform.{Platform}

unfoldable pub parse_duration : Platform → String → Result Duration
parse_duration p s = if s == "" then ok (pos 0) else p.parse_duration s
