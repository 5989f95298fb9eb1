-- ===== src/Http.antt =====
-- http: requests, responses, headers and CGI programs.
pub mod Constants
pub mod Utils
pub mod Header
pub mod Request
pub mod Disk
pub mod Response
pub mod CgiRunner
