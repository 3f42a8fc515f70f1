-- ===== src/PigpioSys/Functions/System.antt =====
-- Functions of pigpio.h. Callbacks, scripts, clocks, files and settings.
use vender.Prelude.{List, [], ◌∷◌, none, some}
use vender.PigpioSys.{no_fields, field, c_int, c_uint, callback, f64, i32, mut_pointer, u32, u64}
use vender.PigpioSys.Gpio.{raw_wave_info_t}
use vender.PigpioSys.Functions.{Function, declare}

-- Filters, callbacks and scripts.
abbrev pub callback_functions : List Function
callback_functions =
    declare "gpioTrigger"
      (field "user_gpio" c_uint (field "pulseLen" c_uint (field "level" c_uint no_fields)))
      (some c_int)
    ∷ declare "gpioSetWatchdog" (field "user_gpio" c_uint (field "timeout" c_uint no_fields))
        (some c_int)
    ∷ declare "gpioNoiseFilter"
        (field "user_gpio" c_uint (field "steady" c_uint (field "active" c_uint no_fields)))
        (some c_int)
    ∷ declare "gpioGlitchFilter" (field "user_gpio" c_uint (field "steady" c_uint no_fields))
        (some c_int)
    ∷ declare "gpioSetGetSamplesFunc"
        (field "f" (callback "gpioGetSamplesFunc_t") (field "bits" u32 no_fields)) (some c_int)
    ∷ declare "gpioSetGetSamplesFuncEx"
        (field "f" (callback "gpioGetSamplesFuncEx_t")
          (field "bits" u32 (field "userdata" (mut_pointer "c_void") no_fields)))
        (some c_int)
    ∷ declare "gpioSetTimerFunc"
        (field "timer" c_uint
          (field "millis" c_uint (field "f" (callback "gpioTimerFunc_t") no_fields)))
        (some c_int)
    ∷ declare "gpioSetTimerFuncEx"
        (field "timer" c_uint (
          field "millis" c_uint (
            field "f" (callback "gpioTimerFuncEx_t")
              (field "userdata" (mut_pointer "c_void") no_fields))))
        (some c_int)
    ∷ declare "gpioStartThread"
        (field "f" (callback "gpioThreadFunc_t")
          (field "userdata" (mut_pointer "c_void") no_fields))
        (some (mut_pointer "pthread_t"))
    ∷ declare "gpioStopThread" (field "pth" (mut_pointer "pthread_t") no_fields) none
    ∷ declare "gpioStoreScript" (field "script" (mut_pointer "c_char") no_fields) (some c_int)
    ∷ declare "gpioRunScript"
        (field "script_id" c_uint
          (field "numPar" c_uint (field "param" (mut_pointer "u32") no_fields)))
        (some c_int)
    ∷ declare "gpioUpdateScript"
        (field "script_id" c_uint
          (field "numPar" c_uint (field "param" (mut_pointer "u32") no_fields)))
        (some c_int)
    ∷ declare "gpioScriptStatus"
        (field "script_id" c_uint (field "param" (mut_pointer "u32") no_fields)) (some c_int)
    ∷ declare "gpioStopScript" (field "script_id" c_uint no_fields) (some c_int)
    ∷ declare "gpioDeleteScript" (field "script_id" c_uint no_fields) (some c_int)
    ∷ declare "gpioSetSignalFunc"
        (field "signum" c_uint (field "f" (callback "gpioSignalFunc_t") no_fields)) (some c_int)
    ∷ declare "gpioSetSignalFuncEx"
        (field "signum" c_uint (
          field "f" (callback "gpioSignalFuncEx_t")
            (field "userdata" (mut_pointer "c_void") no_fields)))
        (some c_int)
    ∷ []

-- Banks of pins, clocks, pads and events.
abbrev pub bank_functions : List Function
bank_functions =
    declare "gpioRead_Bits_0_31" no_fields (some u32)
    ∷ declare "gpioRead_Bits_32_53" no_fields (some u32)
    ∷ declare "gpioWrite_Bits_0_31_Clear" (field "bits" u32 no_fields) (some c_int)
    ∷ declare "gpioWrite_Bits_32_53_Clear" (field "bits" u32 no_fields) (some c_int)
    ∷ declare "gpioWrite_Bits_0_31_Set" (field "bits" u32 no_fields) (some c_int)
    ∷ declare "gpioWrite_Bits_32_53_Set" (field "bits" u32 no_fields) (some c_int)
    ∷ declare "gpioHardwareClock" (field "gpio" c_uint (field "clkfreq" c_uint no_fields))
        (some c_int)
    ∷ declare "gpioHardwarePWM"
        (field "gpio" c_uint (field "PWMfreq" c_uint (field "PWMduty" c_uint no_fields)))
        (some c_int)
    ∷ declare "gpioTime"
        (field "timetype" c_uint
          (field "seconds" (mut_pointer "c_int") (field "micros" (mut_pointer "c_int") no_fields)))
        (some c_int)
    ∷ declare "gpioSleep"
        (field "timetype" c_uint (field "seconds" c_int (field "micros" c_int no_fields)))
        (some c_int)
    ∷ declare "gpioDelay" (field "micros" u32 no_fields) (some u32)
    ∷ declare "gpioTick" no_fields (some u32)
    ∷ declare "gpioHardwareRevision" no_fields (some c_uint)
    ∷ declare "gpioVersion" no_fields (some c_uint)
    ∷ declare "gpioGetPad" (field "pad" c_uint no_fields) (some c_int)
    ∷ declare "gpioSetPad" (field "pad" c_uint (field "padStrength" c_uint no_fields)) (some c_int)
    ∷ declare "eventMonitor" (field "handle" c_uint (field "bits" u32 no_fields)) (some c_int)
    ∷ declare "eventSetFunc" (field "event" c_uint (field "f" (callback "eventFunc_t") no_fields))
        (some c_int)
    ∷ declare "eventSetFuncEx"
        (field "event" c_uint (
          field "f" (callback "eventFuncEx_t") (field "userdata" (mut_pointer "c_void") no_fields)))
        (some c_int)
    ∷ declare "eventTrigger" (field "event" c_uint no_fields) (some c_int)
    ∷ []

-- The shell and files.
abbrev pub file_functions : List Function
file_functions =
    declare "shell"
      (field "scriptName" (mut_pointer "c_char")
        (field "scriptString" (mut_pointer "c_char") no_fields))
      (some c_int)
    ∷ declare "fileOpen" (field "file" (mut_pointer "c_char") (field "mode" c_uint no_fields))
        (some c_int)
    ∷ declare "fileClose" (field "handle" c_uint no_fields) (some c_int)
    ∷ declare "fileWrite"
        (field "handle" c_uint
          (field "buf" (mut_pointer "c_char") (field "count" c_uint no_fields)))
        (some c_int)
    ∷ declare "fileRead"
        (field "handle" c_uint
          (field "buf" (mut_pointer "c_char") (field "count" c_uint no_fields)))
        (some c_int)
    ∷ declare "fileSeek"
        (field "handle" c_uint (field "seekOffset" i32 (field "seekFrom" c_int no_fields)))
        (some c_int)
    ∷ declare "fileList"
        (field "fpat" (mut_pointer "c_char")
          (field "buf" (mut_pointer "c_char") (field "count" c_uint no_fields)))
        (some c_int)
    ∷ []

-- Settings, and the functions that a user may add.
abbrev pub setting_functions : List Function
setting_functions =
    declare "gpioCfgBufferSize" (field "cfgMillis" c_uint no_fields) (some c_int)
    ∷ declare "gpioCfgClock"
        (field "cfgMicros" c_uint
          (field "cfgPeripheral" c_uint (field "cfgSource" c_uint no_fields)))
        (some c_int)
    ∷ declare "gpioCfgDMAchannel" (field "DMAchannel" c_uint no_fields) (some c_int)
    ∷ declare "gpioCfgDMAchannels"
        (field "primaryChannel" c_uint (field "secondaryChannel" c_uint no_fields)) (some c_int)
    ∷ declare "gpioCfgPermissions" (field "updateMask" u64 no_fields) (some c_int)
    ∷ declare "gpioCfgSocketPort" (field "port" c_uint no_fields) (some c_int)
    ∷ declare "gpioCfgInterfaces" (field "ifFlags" c_uint no_fields) (some c_int)
    ∷ declare "gpioCfgMemAlloc" (field "memAllocMode" c_uint no_fields) (some c_int)
    ∷ declare "gpioCfgNetAddr"
        (field "numSockAddr" c_int (field "sockAddr" (mut_pointer "u32") no_fields)) (some c_int)
    ∷ declare "gpioCfgInternals" (field "cfgWhat" c_uint (field "cfgVal" c_uint no_fields))
        (some c_int)
    ∷ declare "gpioCfgGetInternals" no_fields (some u32)
    ∷ declare "gpioCfgSetInternals" (field "cfgVal" u32 no_fields) (some c_int)
    ∷ declare "gpioCustom1"
        (field "arg1" c_uint (
          field "arg2" c_uint
            (field "argx" (mut_pointer "c_char") (field "argc" c_uint no_fields))))
        (some c_int)
    ∷ declare "gpioCustom2"
        (field "arg1" c_uint (
          field "argx" (mut_pointer "c_char") (
            field "argc" c_uint
              (field "retBuf" (mut_pointer "c_char") (field "retMax" c_uint no_fields)))))
        (some c_int)
    ∷ []

-- The insides of waves, and the time.
abbrev pub raw_functions : List Function
raw_functions =
    declare "rawWaveAddSPI"
      (field "spi" (mut_pointer "rawSPI_t") (
        field "offset" c_uint (
          field "spiSS" c_uint (
            field "buf" (mut_pointer "c_char") (
              field "spiTxBits" c_uint (
                field "spiBitFirst" c_uint
                  (field "spiBitLast" c_uint (field "spiBits" c_uint no_fields))))))))
      (some c_int)
    ∷ declare "rawWaveAddGeneric"
        (field "numPulses" c_uint (field "pulses" (mut_pointer "rawWave_t") no_fields)) (some c_int)
    ∷ declare "rawWaveCB" no_fields (some c_uint)
    ∷ declare "rawWaveCBAdr" (field "cbNum" c_int no_fields) (some (mut_pointer "rawCbs_t"))
    ∷ declare "rawWaveGetOOL" (field "pos" c_int no_fields) (some u32)
    ∷ declare "rawWaveSetOOL" (field "pos" c_int (field "lVal" u32 no_fields)) none
    ∷ declare "rawWaveGetOut" (field "pos" c_int no_fields) (some u32)
    ∷ declare "rawWaveSetOut" (field "pos" c_int (field "lVal" u32 no_fields)) none
    ∷ declare "rawWaveGetIn" (field "pos" c_int no_fields) (some u32)
    ∷ declare "rawWaveSetIn" (field "pos" c_int (field "lVal" u32 no_fields)) none
    ∷ declare "rawWaveInfo" (field "wave_id" c_int no_fields) (some raw_wave_info_t)
    ∷ declare "getBitInBytes"
        (field "bitPos" c_int
          (field "buf" (mut_pointer "c_char") (field "numBits" c_int no_fields)))
        (some c_int)
    ∷ declare "putBitInBytes"
        (field "bitPos" c_int (field "buf" (mut_pointer "c_char") (field "bit" c_int no_fields)))
        none
    ∷ declare "time_time" no_fields (some f64)
    ∷ declare "time_sleep" (field "seconds" f64 no_fields) none
    ∷ declare "rawDumpWave" no_fields none
    ∷ declare "rawDumpScript" (field "script_id" c_uint no_fields) none
    ∷ []
