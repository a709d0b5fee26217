-- ===== src/Kube.antt =====
-- What the program sees of Kubernetes: the objects, with the fields that it reads or writes, and
-- the replies of API calls. The types of api/v1alpha1 stand in `Kube/Objects.antt`.
pub mod Errors
pub mod Meta
pub mod Objects
pub mod Exec
pub mod Platform
pub mod Memory
