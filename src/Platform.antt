-- ===== src/Platform.antt =====
-- src/platform: what the framework does with the system.
pub mod CaptureConfig
pub mod EventLoop
