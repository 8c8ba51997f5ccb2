-- ===== src/Navigation.antt =====
-- web/src/navigation: routes, the connection indicator, the request sequence and the sidebar.
pub mod Routes
pub mod Connection
pub mod Requests
pub mod Sidebar
