-- ===== src/Util/Sources.antt =====
-- internal/pkg/util/helpers.go: the resource that triggered a reload.
use reloader_operator.Base.{String}

pub record ReloadSource : Type 0 where
  pub kind : String
  pub name : String
  pub namespace : String
  pub hash : String
