-- ===== src/Alerts.antt =====
-- internal/pkg/alerts
pub mod Senders
pub mod Message
pub mod Slack
pub mod Teams
pub mod GoogleChat
pub mod Sending
pub mod Manager
