-- ===== src/Instance/Seeds.antt =====
-- internal/controller/hermesinstance_controller.go: what `reconcileWorkspaceConfigMap` leaves.
use hermes_operator.Resources.Workspace.Seeded.{Seeded}
