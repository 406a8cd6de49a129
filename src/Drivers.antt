-- ===== src/Drivers.antt =====
-- src/drivers: the power-management timer, the serial port and the AHCI controller.
pub mod Ahci
pub mod Pmt
pub mod Serial
