-- ===== src/Controller.antt =====
-- controller/controllerserver.go and controller/interface.go.
pub mod Manager
pub mod Service
pub mod Advertised
