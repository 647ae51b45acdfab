-- ===== src/Collections.antt =====
-- The parts of the C++ standard library that the code keeps its state in: ordered keys, `std::map`
-- and `std::set`, both iterated in ascending order of their keys.
pub mod Every
pub mod Key
pub mod Map
pub mod Set
pub mod Visit
