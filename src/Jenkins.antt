-- ===== src/Jenkins.antt =====
-- The Jenkins client: plugins/jenkins/src/client.cpp.
pub mod Base64
pub mod Builds
mod Tests
