-- ===== src/Client/Api.antt =====
-- The handlers of client/app/main.py, by what they manage.
pub mod Servers
pub mod GroupEdits
pub mod Attachments
pub mod Views
pub mod ServerViews
