-- ===== src/Service.antt =====
-- internal/service: the installation, the service of Windows, and the dialogs. What a command of the system does, and
-- whether it succeeds, is a parameter.
pub mod Steps
pub mod Linux
pub mod Darwin
pub mod Windows
pub mod Setup
pub mod Trust
pub mod Dialogs
pub mod Boxes
pub mod Nodes
