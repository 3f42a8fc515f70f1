-- ===== src/Tests/Sys.antt =====
-- The theorems on the bindings and on statuses at concrete inputs.
use vender.Prelude.{◌≡◌, refl, some, negsuc, arith}
use vender.PigpioSys.{field, no_fields, u32, Passes}
use vender.PigpioSys.{i32, const_pointer}
use vender.PigpioSys.Functions.{Function, declare}
use vender.PigpioSys.Functions.Mock.{StandsIn, mock_functions-StandsIn}
use vender.PigpioSys.Gpio.{test_layout_gpio_pulse_t}
use vender.PigpioSys.LayoutTests.{layout_tests-Pass}
use vender.Pigpio.{check}
use vender.Pigpio.Status.{status_in, status_in-check}
use vender.Tests.Driver.{port}

layout_tests-Pass_example : Passes test_layout_gpio_pulse_t
layout_tests-Pass_example = layout_tests-Pass 30 test_layout_gpio_pulse_t refl

status_in-check_example : status_in (check (negsuc 24) port).0 ≡ negsuc 24
status_in-check_example = status_in-check (negsuc 24) port (omega arith)

-- The mock reads the bytes through a `*const c_char`, the bindings have a `*mut c_char`.
abbrev add_serial : Function
add_serial =
    declare "gpioWaveAddSerial"
      (field "_" u32 (
        field "_" u32 (
          field "_" u32 (
            field "_" u32
              (field "_" u32 (field "_" u32 (field "_" (const_pointer "c_char") no_fields)))))))
      (some i32)

mock_functions-StandsIn_example : StandsIn add_serial
mock_functions-StandsIn_example = mock_functions-StandsIn 8 add_serial refl
