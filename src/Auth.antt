-- ===== src/Auth.antt =====
-- backend/app/services/auth.py over backend/app/models/user.py, repositories/user.py,
-- services/audit.py and core/security.py. The handlers are in Login, Sessions and Passwords.
pub mod Store
pub mod Security
pub mod Login
pub mod Sessions
pub mod Passwords
pub mod ApiKeys
pub mod Tests
