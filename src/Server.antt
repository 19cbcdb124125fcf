-- ===== src/Server.antt =====
-- The server of an Agent (internal/controller/agent_controller.go): the ConfigMap and the mounts of
-- its Deployment, the label of its template, its status and its public link.
pub mod Contexts
pub mod Objects
pub mod Status
pub mod Share
