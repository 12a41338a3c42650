-- ===== src/Api.antt =====
-- The custom resources of api/v1 (HermesInstance, HermesSelfConfig, HermesClusterDefaults), with
-- the fields that the modelled code reads or writes. A pointer or a nil-able map is an `Option`; an
-- int32 that the API bounds below by 0 or 1 is an ℕ; a `metav1.Time` is a number of seconds.
pub mod Features
pub mod Spec
pub mod Status
pub mod Instance
pub mod SelfConfig
pub mod ClusterDefaults
