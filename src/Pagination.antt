-- ===== src/Pagination.antt =====
-- internal/pagination: requests for pages, filters from parameters, and the paginator.
pub mod Request
pub mod Filter
pub mod Paginator
pub mod Order
pub mod Slices
pub mod Pages
pub mod Allowed
pub mod Compiles
pub mod Keys
mod Tests
