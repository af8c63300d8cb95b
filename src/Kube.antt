-- ===== src/Kube.antt =====
-- The Kubernetes objects that the operator writes, with the fields that its sources set or read.
-- A field that the sources never name is kept, unread, in `other`: a list of serialised fields,
-- which is empty in the struct literals of the sources, as Go's zero values are.
pub mod Meta
pub mod Pod
pub mod Workload
pub mod Network
pub mod Access
pub mod Object
