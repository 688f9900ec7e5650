-- ===== src/Controller.antt =====
-- pkg/driver/controller.go, and the parts of pkg/driver/utils.go that it uses.
pub mod Capacity
pub mod Create
pub mod References
pub mod Delete
pub mod Locking
pub mod Deletion
pub mod Queries
pub mod Listing
