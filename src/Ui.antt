-- ===== src/Ui.antt =====
-- src/rcm/ui: the parts of the desktop user interface that have no widgets.
pub mod Scheduler
pub mod Geometry
