-- ===== src/Backup/Finalizer/Tests.antt =====
-- The finalizer of two instances, put on and taken off.
use hermes_operator.Common.{ℕ, []}
use hermes_operator.Kube.Result.{err, not_found}
use hermes_operator.Kube.Client.{Client, IsApiServer}
use hermes_operator.Controller.{St}
use hermes_operator.Fixtures.Instances.{plain_instance, deleted_instance}
use hermes_operator.Fixtures.Server.{server, server-IsApiServer, sts_at}

abbrev api : Client ℕ
api = server (err not_found) (sts_at "hermes:1" 1) [] []

api-IsApiServer : IsApiServer api
api-IsApiServer = server-IsApiServer (err not_found) (sts_at "hermes:1" 1) [] []

abbrev fresh : St ℕ
fresh = record { inst = plain_instance; world = 0; events = [] }

abbrev deleted : St ℕ
deleted = record { inst = deleted_instance; world = 0; events = [] }
