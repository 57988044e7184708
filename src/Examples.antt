-- ===== src/Examples.antt =====
-- Concrete runs of the model: tests by evaluation, and the theorems at inputs that meet their
-- hypotheses.
pub mod Diff
pub mod Delivery
pub mod Store
pub mod Dirtyset
pub mod Reconcile
pub mod Tracker
pub mod Convert
pub mod Watchtree
pub mod Observer
pub mod Scrub
pub mod Bolt
pub mod Scanner
pub mod BoltReconcile
pub mod Fsnotify
pub mod Interleaved
pub mod Debounce
