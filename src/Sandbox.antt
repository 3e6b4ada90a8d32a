-- ===== src/Sandbox.antt =====
-- internal/sandbox/docker.go: memory sizes, and the container that a contestant's engine runs in.
-- The Docker daemon is a service: its replies are arguments, the calls made of it are values.
pub mod Size
pub mod Container
pub mod Archive
