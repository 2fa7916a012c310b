-- ===== src/Utils.antt =====
-- src/utils: containers and hashing.
pub mod Memory
pub mod RdMatrix
pub mod SMatrix
pub mod RMatrix
pub mod HashEngine
pub mod Bucket
pub mod HashMap
pub mod HashSet
pub mod HashMapArray
pub mod R3dMatrix
pub mod IntBitSet
pub mod LinkedList
pub mod CArrayList
