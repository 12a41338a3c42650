-- ===== src/Kube.antt =====
-- What the operator uses of Kubernetes and of the libraries that are not in the repository: the
-- objects as it sees them, errors, the API client and the helpers on conditions and finalizers.
pub mod Result
pub mod Objects
pub mod Library
pub mod Client
pub mod Cluster
