-- ===== src/Usb.antt =====
-- src/usb/usb_transport.cpp: the transport over libusb. The library, the device and the clock are
-- a parameter, `Libusb`, whose calls change a state of their own.
pub mod Bulk
pub mod Channel
pub mod Buffering
pub mod Bounds
pub mod Faults
pub mod Waiting
pub mod Devices
pub mod Finding
pub mod Endpoints
pub mod Interfaces
pub mod Opening
pub mod Opened
pub mod Leaving
