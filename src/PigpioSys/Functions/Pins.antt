-- ===== src/PigpioSys/Functions/Pins.antt =====
-- Functions of pigpio.h. Pins, waves and reading serial data.
use vender.Prelude.{List, [], ◌∷◌, none, some}
use vender.PigpioSys.{no_fields, field, c_int, c_uint, callback, mut_pointer, u32, usize}
use vender.PigpioSys.Functions.{Function, declare}

-- Setting up, and the pins.
abbrev pub pin_functions : List Function
pin_functions =
    declare "gpioInitialise" no_fields (some c_int)
    ∷ declare "gpioTerminate" no_fields none
    ∷ declare "gpioSetMode" (field "gpio" c_uint (field "mode" c_uint no_fields)) (some c_int)
    ∷ declare "gpioGetMode" (field "gpio" c_uint no_fields) (some c_int)
    ∷ declare "gpioSetPullUpDown" (field "gpio" c_uint (field "pud" c_uint no_fields)) (some c_int)
    ∷ declare "gpioRead" (field "gpio" c_uint no_fields) (some c_int)
    ∷ declare "gpioWrite" (field "gpio" c_uint (field "level" c_uint no_fields)) (some c_int)
    ∷ declare "gpioPWM" (field "user_gpio" c_uint (field "dutycycle" c_uint no_fields)) (some c_int)
    ∷ declare "gpioGetPWMdutycycle" (field "user_gpio" c_uint no_fields) (some c_int)
    ∷ declare "gpioSetPWMrange" (field "user_gpio" c_uint (field "range" c_uint no_fields))
        (some c_int)
    ∷ declare "gpioGetPWMrange" (field "user_gpio" c_uint no_fields) (some c_int)
    ∷ declare "gpioGetPWMrealRange" (field "user_gpio" c_uint no_fields) (some c_int)
    ∷ declare "gpioSetPWMfrequency" (field "user_gpio" c_uint (field "frequency" c_uint no_fields))
        (some c_int)
    ∷ declare "gpioGetPWMfrequency" (field "user_gpio" c_uint no_fields) (some c_int)
    ∷ declare "gpioServo" (field "user_gpio" c_uint (field "pulsewidth" c_uint no_fields))
        (some c_int)
    ∷ declare "gpioGetServoPulsewidth" (field "user_gpio" c_uint no_fields) (some c_int)
    ∷ declare "gpioSetAlertFunc"
        (field "user_gpio" c_uint (field "f" (callback "gpioAlertFunc_t") no_fields)) (some c_int)
    ∷ declare "gpioSetAlertFuncEx"
        (field "user_gpio" c_uint (
          field "f" (callback "gpioAlertFuncEx_t")
            (field "userdata" (mut_pointer "c_void") no_fields)))
        (some c_int)
    ∷ declare "gpioSetISRFunc"
        (field "gpio" c_uint (
          field "edge" c_uint
            (field "timeout" c_int (field "f" (callback "gpioISRFunc_t") no_fields))))
        (some c_int)
    ∷ declare "gpioSetISRFuncEx"
        (field "gpio" c_uint (
          field "edge" c_uint (
            field "timeout" c_int (
              field "f" (callback "gpioISRFuncEx_t")
                (field "userdata" (mut_pointer "c_void") no_fields)))))
        (some c_int)
    ∷ declare "gpioNotifyOpen" no_fields (some c_int)
    ∷ declare "gpioNotifyOpenWithSize" (field "bufSize" c_int no_fields) (some c_int)
    ∷ declare "gpioNotifyBegin" (field "handle" c_uint (field "bits" u32 no_fields)) (some c_int)
    ∷ declare "gpioNotifyPause" (field "handle" c_uint no_fields) (some c_int)
    ∷ declare "gpioNotifyClose" (field "handle" c_uint no_fields) (some c_int)
    ∷ []

-- Waves, and serial data.
abbrev pub wave_functions : List Function
wave_functions =
    declare "gpioWaveClear" no_fields (some c_int)
    ∷ declare "gpioWaveAddNew" no_fields (some c_int)
    ∷ declare "gpioWaveAddGeneric"
        (field "numPulses" c_uint (field "pulses" (mut_pointer "gpioPulse_t") no_fields))
        (some c_int)
    ∷ declare "gpioWaveAddSerial"
        (field "user_gpio" c_uint (
          field "baud" c_uint (
            field "data_bits" c_uint (
              field "stop_bits" c_uint (
                field "offset" c_uint
                  (field "numBytes" c_uint (field "str" (mut_pointer "c_char") no_fields)))))))
        (some c_int)
    ∷ declare "gpioWaveCreate" no_fields (some c_int)
    ∷ declare "gpioWaveDelete" (field "wave_id" c_uint no_fields) (some c_int)
    ∷ declare "gpioWaveTxSend" (field "wave_id" c_uint (field "wave_mode" c_uint no_fields))
        (some c_int)
    ∷ declare "gpioWaveChain"
        (field "buf" (mut_pointer "c_char") (field "bufSize" c_uint no_fields)) (some c_int)
    ∷ declare "gpioWaveTxAt" no_fields (some c_int)
    ∷ declare "gpioWaveTxBusy" no_fields (some c_int)
    ∷ declare "gpioWaveTxStop" no_fields (some c_int)
    ∷ declare "gpioWaveGetMicros" no_fields (some c_int)
    ∷ declare "gpioWaveGetHighMicros" no_fields (some c_int)
    ∷ declare "gpioWaveGetMaxMicros" no_fields (some c_int)
    ∷ declare "gpioWaveGetPulses" no_fields (some c_int)
    ∷ declare "gpioWaveGetHighPulses" no_fields (some c_int)
    ∷ declare "gpioWaveGetMaxPulses" no_fields (some c_int)
    ∷ declare "gpioWaveGetCbs" no_fields (some c_int)
    ∷ declare "gpioWaveGetHighCbs" no_fields (some c_int)
    ∷ declare "gpioWaveGetMaxCbs" no_fields (some c_int)
    ∷ declare "gpioSerialReadOpen"
        (field "user_gpio" c_uint (field "baud" c_uint (field "data_bits" c_uint no_fields)))
        (some c_int)
    ∷ declare "gpioSerialReadInvert" (field "user_gpio" c_uint (field "invert" c_uint no_fields))
        (some c_int)
    ∷ declare "gpioSerialRead"
        (field "user_gpio" c_uint
          (field "buf" (mut_pointer "c_void") (field "bufSize" usize no_fields)))
        (some c_int)
    ∷ declare "gpioSerialReadClose" (field "user_gpio" c_uint no_fields) (some c_int)
    ∷ []
