-- ===== src/Util/Strategies.antt =====
-- internal/pkg/util/helpers.go: the defaults of a target's namespace and strategies.
use reloader_operator.Base.{String, ◌≢◌, arith, eq_iff, ◌==◌, if◌then◌else◌}
use reloader_operator.Util.Names.{rollout_strategy_rollout, reload_strategy_env_vars}

unfoldable pub get_default_namespace : String → String → String
get_default_namespace target_namespace default_namespace =
    if target_namespace == "" then default_namespace else target_namespace

unfoldable pub get_default_rollout_strategy : String → String → String
get_default_rollout_strategy target_strategy default_strategy =
    if target_strategy == ""
    then (if default_strategy == "" then rollout_strategy_rollout else default_strategy)
    else target_strategy

unfoldable pub get_default_reload_strategy : String → String → String
get_default_reload_strategy target_strategy default_strategy =
    if target_strategy == ""
    then (if default_strategy == "" then reload_strategy_env_vars else default_strategy)
    else target_strategy

pub get_default_rollout_strategy-ne-nil :
    (target_strategy default_strategy : String)
    → get_default_rollout_strategy target_strategy default_strategy ≢ ""
unfolding get_default_rollout_strategy
get_default_rollout_strategy-ne-nil s d e =
    ground (arith, eq_iff s "", eq_iff d "", eq_iff rollout_strategy_rollout "")

pub get_default_reload_strategy-ne-nil :
    (target_strategy default_strategy : String)
    → get_default_reload_strategy target_strategy default_strategy ≢ ""
unfolding get_default_reload_strategy
get_default_reload_strategy-ne-nil s d e =
    ground (arith, eq_iff s "", eq_iff d "", eq_iff reload_strategy_env_vars "")
