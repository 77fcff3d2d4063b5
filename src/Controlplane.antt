-- ===== src/Controlplane.antt =====
-- internal/controlplane: the node as a destination of the control plane.
pub mod Report
pub mod Manager
pub mod Client
pub mod Oauth
