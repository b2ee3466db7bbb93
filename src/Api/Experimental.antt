-- ===== src/Api/Experimental.antt =====
-- The experimental actions of the cloud client.
pub mod Parameters
pub mod Filters
pub mod Mutation
