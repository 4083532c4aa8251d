-- ===== src/UsbDescriptors/Tests.antt =====
-- The sizes that the descriptors state are their own.
use picobridge.Prelude.{◌≡◌, refl, length, get_or}
use picobridge.UsbDescriptors.{device, configuration}

device_size : get_or device 0 0 ≡ length device
device_size = refl

configuration_size : get_or configuration 2 0 ≡ length configuration
configuration_size = refl
