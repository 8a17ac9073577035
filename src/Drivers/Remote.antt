-- ===== src/Drivers/Remote.antt =====
-- Running a command where the load is made: `Run` of the drivers in pkg/drivers/*.go, from the
-- choice between a VM and a pod on.
pub mod Steps
pub mod Vm
