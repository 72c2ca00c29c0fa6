-- ===== src/Datastore.antt =====
-- modbus_sim/datastore.py: register regions, devices and the collection of devices. A device's
-- lock is taken by the tasks of Server.Tasks, each step of which is what it holds the lock for.
pub mod Value
pub mod Block
pub mod Device
pub mod Name
pub mod Factory
pub mod Store
