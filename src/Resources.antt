-- ===== src/Resources.antt =====
-- internal/resources: the pure builders of the Kubernetes objects of an instance, as far as they
-- decide something; the bulk of the objects (pod templates, rules, dashboards) is left out.
pub mod Workspace
pub mod Labels
pub mod Names
pub mod Yaml
pub mod Gateways
pub mod Config
pub mod Secret
