-- ===== src/Controller/Deletion.antt =====
-- When DeleteVolume and DeleteSnapshot unpin a CID.
pub mod Usage
pub mod Volumes
pub mod Cache
pub mod Snapshots
