-- ===== src/Tests/Cleanups.antt =====
-- Runs of the cleanup, and the names that it uses.
use greatsql_operator.Prelude.{refl}
use greatsql_operator.Prelude.Plans.{Follows}
use greatsql_operator.Kube.Answers.{recorded}
use greatsql_operator.Utils.Finalizer.{handle_finalizer}
use greatsql_operator.Utils.Finalizer.Cleanup.{cleanup_plan, handle_finalizer-Follows}
use greatsql_operator.Tests.Server.{accepting, dying}

handle_finalizer-Follows_example :
    Follows (cleanup_plan dying) (handle_finalizer (recorded accepting) dying)
handle_finalizer-Follows_example = handle_finalizer-Follows accepting dying refl refl
