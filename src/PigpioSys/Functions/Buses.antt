-- ===== src/PigpioSys/Functions/Buses.antt =====
-- Functions of pigpio.h. The other buses.
use vender.Prelude.{List, [], ◌∷◌, none, some}
use vender.PigpioSys.{no_fields, field, c_int, c_uint, mut_pointer}
use vender.PigpioSys.Functions.{Function, declare}

-- I2C.
abbrev pub i2c_functions : List Function
i2c_functions =
    declare "i2cOpen"
      (field "i2cBus" c_uint (field "i2cAddr" c_uint (field "i2cFlags" c_uint no_fields)))
      (some c_int)
    ∷ declare "i2cClose" (field "handle" c_uint no_fields) (some c_int)
    ∷ declare "i2cWriteQuick" (field "handle" c_uint (field "bit" c_uint no_fields)) (some c_int)
    ∷ declare "i2cWriteByte" (field "handle" c_uint (field "bVal" c_uint no_fields)) (some c_int)
    ∷ declare "i2cReadByte" (field "handle" c_uint no_fields) (some c_int)
    ∷ declare "i2cWriteByteData"
        (field "handle" c_uint (field "i2cReg" c_uint (field "bVal" c_uint no_fields))) (some c_int)
    ∷ declare "i2cWriteWordData"
        (field "handle" c_uint (field "i2cReg" c_uint (field "wVal" c_uint no_fields))) (some c_int)
    ∷ declare "i2cReadByteData" (field "handle" c_uint (field "i2cReg" c_uint no_fields))
        (some c_int)
    ∷ declare "i2cReadWordData" (field "handle" c_uint (field "i2cReg" c_uint no_fields))
        (some c_int)
    ∷ declare "i2cProcessCall"
        (field "handle" c_uint (field "i2cReg" c_uint (field "wVal" c_uint no_fields))) (some c_int)
    ∷ declare "i2cWriteBlockData"
        (field "handle" c_uint (
          field "i2cReg" c_uint
            (field "buf" (mut_pointer "c_char") (field "count" c_uint no_fields))))
        (some c_int)
    ∷ declare "i2cReadBlockData"
        (field "handle" c_uint
          (field "i2cReg" c_uint (field "buf" (mut_pointer "c_char") no_fields)))
        (some c_int)
    ∷ declare "i2cBlockProcessCall"
        (field "handle" c_uint (
          field "i2cReg" c_uint
            (field "buf" (mut_pointer "c_char") (field "count" c_uint no_fields))))
        (some c_int)
    ∷ declare "i2cReadI2CBlockData"
        (field "handle" c_uint (
          field "i2cReg" c_uint
            (field "buf" (mut_pointer "c_char") (field "count" c_uint no_fields))))
        (some c_int)
    ∷ declare "i2cWriteI2CBlockData"
        (field "handle" c_uint (
          field "i2cReg" c_uint
            (field "buf" (mut_pointer "c_char") (field "count" c_uint no_fields))))
        (some c_int)
    ∷ declare "i2cReadDevice"
        (field "handle" c_uint
          (field "buf" (mut_pointer "c_char") (field "count" c_uint no_fields)))
        (some c_int)
    ∷ declare "i2cWriteDevice"
        (field "handle" c_uint
          (field "buf" (mut_pointer "c_char") (field "count" c_uint no_fields)))
        (some c_int)
    ∷ declare "i2cSwitchCombined" (field "setting" c_int no_fields) none
    ∷ declare "i2cSegments"
        (field "handle" c_uint
          (field "segs" (mut_pointer "pi_i2c_msg_t") (field "numSegs" c_uint no_fields)))
        (some c_int)
    ∷ declare "i2cZip"
        (field "handle" c_uint (
          field "inBuf" (mut_pointer "c_char") (
            field "inLen" c_uint
              (field "outBuf" (mut_pointer "c_char") (field "outLen" c_uint no_fields)))))
        (some c_int)
    ∷ []

-- Buses over any pins, and the slave of the BSC.
abbrev pub bit_bang_functions : List Function
bit_bang_functions =
    declare "bbI2COpen" (field "SDA" c_uint (field "SCL" c_uint (field "baud" c_uint no_fields)))
      (some c_int)
    ∷ declare "bbI2CClose" (field "SDA" c_uint no_fields) (some c_int)
    ∷ declare "bbI2CZip"
        (field "SDA" c_uint (
          field "inBuf" (mut_pointer "c_char") (
            field "inLen" c_uint
              (field "outBuf" (mut_pointer "c_char") (field "outLen" c_uint no_fields)))))
        (some c_int)
    ∷ declare "bscXfer" (field "bsc_xfer" (mut_pointer "bsc_xfer_t") no_fields) (some c_int)
    ∷ declare "bbSPIOpen"
        (field "CS" c_uint (
          field "MISO" c_uint (
            field "MOSI" c_uint
              (field "SCLK" c_uint (field "baud" c_uint (field "spiFlags" c_uint no_fields))))))
        (some c_int)
    ∷ declare "bbSPIClose" (field "CS" c_uint no_fields) (some c_int)
    ∷ declare "bbSPIXfer"
        (field "CS" c_uint (
          field "inBuf" (mut_pointer "c_char")
            (field "outBuf" (mut_pointer "c_char") (field "count" c_uint no_fields))))
        (some c_int)
    ∷ []

-- SPI and the serial device.
abbrev pub serial_functions : List Function
serial_functions =
    declare "spiOpen"
      (field "spiChan" c_uint (field "baud" c_uint (field "spiFlags" c_uint no_fields)))
      (some c_int)
    ∷ declare "spiClose" (field "handle" c_uint no_fields) (some c_int)
    ∷ declare "spiRead"
        (field "handle" c_uint
          (field "buf" (mut_pointer "c_char") (field "count" c_uint no_fields)))
        (some c_int)
    ∷ declare "spiWrite"
        (field "handle" c_uint
          (field "buf" (mut_pointer "c_char") (field "count" c_uint no_fields)))
        (some c_int)
    ∷ declare "spiXfer"
        (field "handle" c_uint (
          field "txBuf" (mut_pointer "c_char")
            (field "rxBuf" (mut_pointer "c_char") (field "count" c_uint no_fields))))
        (some c_int)
    ∷ declare "serOpen"
        (field "sertty" (mut_pointer "c_char")
          (field "baud" c_uint (field "serFlags" c_uint no_fields)))
        (some c_int)
    ∷ declare "serClose" (field "handle" c_uint no_fields) (some c_int)
    ∷ declare "serWriteByte" (field "handle" c_uint (field "bVal" c_uint no_fields)) (some c_int)
    ∷ declare "serReadByte" (field "handle" c_uint no_fields) (some c_int)
    ∷ declare "serWrite"
        (field "handle" c_uint
          (field "buf" (mut_pointer "c_char") (field "count" c_uint no_fields)))
        (some c_int)
    ∷ declare "serRead"
        (field "handle" c_uint
          (field "buf" (mut_pointer "c_char") (field "count" c_uint no_fields)))
        (some c_int)
    ∷ declare "serDataAvailable" (field "handle" c_uint no_fields) (some c_int)
    ∷ []
