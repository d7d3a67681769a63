-- ===== src/Meta/Invariant.antt =====
-- What every command of the meta group keeps, from the relation on its writes.
pub mod Frame
pub mod Directory
pub mod Valid
pub mod Later
pub mod History
pub mod Fence
