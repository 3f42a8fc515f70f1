-- ===== src/PigpioSys/Codes.antt =====
-- The error codes of pigpio.h: what its functions return in place of a count.
use vender.Prelude.{ℕ, ◌-◌, ℤ, negsuc, String, List, [], ◌∷◌}

-- The literal `-n`.
abbrev pub minus : ℕ → ℤ
minus n = negsuc (n - 1)

-- The constants of type `i32` from PI_INIT_FAILED on.
abbrev pub error_codes : List (String × ℤ)
error_codes =
    ("PI_INIT_FAILED", minus 1)
    ∷ ("PI_BAD_USER_GPIO", minus 2)
    ∷ ("PI_BAD_GPIO", minus 3)
    ∷ ("PI_BAD_MODE", minus 4)
    ∷ ("PI_BAD_LEVEL", minus 5)
    ∷ ("PI_BAD_PUD", minus 6)
    ∷ ("PI_BAD_PULSEWIDTH", minus 7)
    ∷ ("PI_BAD_DUTYCYCLE", minus 8)
    ∷ ("PI_BAD_TIMER", minus 9)
    ∷ ("PI_BAD_MS", minus 10)
    ∷ ("PI_BAD_TIMETYPE", minus 11)
    ∷ ("PI_BAD_SECONDS", minus 12)
    ∷ ("PI_BAD_MICROS", minus 13)
    ∷ ("PI_TIMER_FAILED", minus 14)
    ∷ ("PI_BAD_WDOG_TIMEOUT", minus 15)
    ∷ ("PI_NO_ALERT_FUNC", minus 16)
    ∷ ("PI_BAD_CLK_PERIPH", minus 17)
    ∷ ("PI_BAD_CLK_SOURCE", minus 18)
    ∷ ("PI_BAD_CLK_MICROS", minus 19)
    ∷ ("PI_BAD_BUF_MILLIS", minus 20)
    ∷ ("PI_BAD_DUTYRANGE", minus 21)
    ∷ ("PI_BAD_DUTY_RANGE", minus 21)
    ∷ ("PI_BAD_SIGNUM", minus 22)
    ∷ ("PI_BAD_PATHNAME", minus 23)
    ∷ ("PI_NO_HANDLE", minus 24)
    ∷ ("PI_BAD_HANDLE", minus 25)
    ∷ ("PI_BAD_IF_FLAGS", minus 26)
    ∷ ("PI_BAD_CHANNEL", minus 27)
    ∷ ("PI_BAD_PRIM_CHANNEL", minus 27)
    ∷ ("PI_BAD_SOCKET_PORT", minus 28)
    ∷ ("PI_BAD_FIFO_COMMAND", minus 29)
    ∷ ("PI_BAD_SECO_CHANNEL", minus 30)
    ∷ ("PI_NOT_INITIALISED", minus 31)
    ∷ ("PI_INITIALISED", minus 32)
    ∷ ("PI_BAD_WAVE_MODE", minus 33)
    ∷ ("PI_BAD_CFG_INTERNAL", minus 34)
    ∷ ("PI_BAD_WAVE_BAUD", minus 35)
    ∷ ("PI_TOO_MANY_PULSES", minus 36)
    ∷ ("PI_TOO_MANY_CHARS", minus 37)
    ∷ ("PI_NOT_SERIAL_GPIO", minus 38)
    ∷ ("PI_BAD_SERIAL_STRUC", minus 39)
    ∷ ("PI_BAD_SERIAL_BUF", minus 40)
    ∷ ("PI_NOT_PERMITTED", minus 41)
    ∷ ("PI_SOME_PERMITTED", minus 42)
    ∷ ("PI_BAD_WVSC_COMMND", minus 43)
    ∷ ("PI_BAD_WVSM_COMMND", minus 44)
    ∷ ("PI_BAD_WVSP_COMMND", minus 45)
    ∷ ("PI_BAD_PULSELEN", minus 46)
    ∷ ("PI_BAD_SCRIPT", minus 47)
    ∷ ("PI_BAD_SCRIPT_ID", minus 48)
    ∷ ("PI_BAD_SER_OFFSET", minus 49)
    ∷ ("PI_GPIO_IN_USE", minus 50)
    ∷ ("PI_BAD_SERIAL_COUNT", minus 51)
    ∷ ("PI_BAD_PARAM_NUM", minus 52)
    ∷ ("PI_DUP_TAG", minus 53)
    ∷ ("PI_TOO_MANY_TAGS", minus 54)
    ∷ ("PI_BAD_SCRIPT_CMD", minus 55)
    ∷ ("PI_BAD_VAR_NUM", minus 56)
    ∷ ("PI_NO_SCRIPT_ROOM", minus 57)
    ∷ ("PI_NO_MEMORY", minus 58)
    ∷ ("PI_SOCK_READ_FAILED", minus 59)
    ∷ ("PI_SOCK_WRIT_FAILED", minus 60)
    ∷ ("PI_TOO_MANY_PARAM", minus 61)
    ∷ ("PI_NOT_HALTED", minus 62)
    ∷ ("PI_SCRIPT_NOT_READY", minus 62)
    ∷ ("PI_BAD_TAG", minus 63)
    ∷ ("PI_BAD_MICS_DELAY", minus 64)
    ∷ ("PI_BAD_MILS_DELAY", minus 65)
    ∷ ("PI_BAD_WAVE_ID", minus 66)
    ∷ ("PI_TOO_MANY_CBS", minus 67)
    ∷ ("PI_TOO_MANY_OOL", minus 68)
    ∷ ("PI_EMPTY_WAVEFORM", minus 69)
    ∷ ("PI_NO_WAVEFORM_ID", minus 70)
    ∷ ("PI_I2C_OPEN_FAILED", minus 71)
    ∷ ("PI_SER_OPEN_FAILED", minus 72)
    ∷ ("PI_SPI_OPEN_FAILED", minus 73)
    ∷ ("PI_BAD_I2C_BUS", minus 74)
    ∷ ("PI_BAD_I2C_ADDR", minus 75)
    ∷ ("PI_BAD_SPI_CHANNEL", minus 76)
    ∷ ("PI_BAD_FLAGS", minus 77)
    ∷ ("PI_BAD_SPI_SPEED", minus 78)
    ∷ ("PI_BAD_SER_DEVICE", minus 79)
    ∷ ("PI_BAD_SER_SPEED", minus 80)
    ∷ ("PI_BAD_PARAM", minus 81)
    ∷ ("PI_I2C_WRITE_FAILED", minus 82)
    ∷ ("PI_I2C_READ_FAILED", minus 83)
    ∷ ("PI_BAD_SPI_COUNT", minus 84)
    ∷ ("PI_SER_WRITE_FAILED", minus 85)
    ∷ ("PI_SER_READ_FAILED", minus 86)
    ∷ ("PI_SER_READ_NO_DATA", minus 87)
    ∷ ("PI_UNKNOWN_COMMAND", minus 88)
    ∷ ("PI_SPI_XFER_FAILED", minus 89)
    ∷ ("PI_BAD_POINTER", minus 90)
    ∷ ("PI_NO_AUX_SPI", minus 91)
    ∷ ("PI_NOT_PWM_GPIO", minus 92)
    ∷ ("PI_NOT_SERVO_GPIO", minus 93)
    ∷ ("PI_NOT_HCLK_GPIO", minus 94)
    ∷ ("PI_NOT_HPWM_GPIO", minus 95)
    ∷ ("PI_BAD_HPWM_FREQ", minus 96)
    ∷ ("PI_BAD_HPWM_DUTY", minus 97)
    ∷ ("PI_BAD_HCLK_FREQ", minus 98)
    ∷ ("PI_BAD_HCLK_PASS", minus 99)
    ∷ ("PI_HPWM_ILLEGAL", minus 100)
    ∷ ("PI_BAD_DATABITS", minus 101)
    ∷ ("PI_BAD_STOPBITS", minus 102)
    ∷ ("PI_MSG_TOOBIG", minus 103)
    ∷ ("PI_BAD_MALLOC_MODE", minus 104)
    ∷ ("PI_TOO_MANY_SEGS", minus 105)
    ∷ ("PI_BAD_I2C_SEG", minus 106)
    ∷ ("PI_BAD_SMBUS_CMD", minus 107)
    ∷ ("PI_NOT_I2C_GPIO", minus 108)
    ∷ ("PI_BAD_I2C_WLEN", minus 109)
    ∷ ("PI_BAD_I2C_RLEN", minus 110)
    ∷ ("PI_BAD_I2C_CMD", minus 111)
    ∷ ("PI_BAD_I2C_BAUD", minus 112)
    ∷ ("PI_CHAIN_LOOP_CNT", minus 113)
    ∷ ("PI_BAD_CHAIN_LOOP", minus 114)
    ∷ ("PI_CHAIN_COUNTER", minus 115)
    ∷ ("PI_BAD_CHAIN_CMD", minus 116)
    ∷ ("PI_BAD_CHAIN_DELAY", minus 117)
    ∷ ("PI_CHAIN_NESTING", minus 118)
    ∷ ("PI_CHAIN_TOO_BIG", minus 119)
    ∷ ("PI_DEPRECATED", minus 120)
    ∷ ("PI_BAD_SER_INVERT", minus 121)
    ∷ ("PI_BAD_EDGE", minus 122)
    ∷ ("PI_BAD_ISR_INIT", minus 123)
    ∷ ("PI_BAD_FOREVER", minus 124)
    ∷ ("PI_BAD_FILTER", minus 125)
    ∷ ("PI_BAD_PAD", minus 126)
    ∷ ("PI_BAD_STRENGTH", minus 127)
    ∷ ("PI_FIL_OPEN_FAILED", minus 128)
    ∷ ("PI_BAD_FILE_MODE", minus 129)
    ∷ ("PI_BAD_FILE_FLAG", minus 130)
    ∷ ("PI_BAD_FILE_READ", minus 131)
    ∷ ("PI_BAD_FILE_WRITE", minus 132)
    ∷ ("PI_FILE_NOT_ROPEN", minus 133)
    ∷ ("PI_FILE_NOT_WOPEN", minus 134)
    ∷ ("PI_BAD_FILE_SEEK", minus 135)
    ∷ ("PI_NO_FILE_MATCH", minus 136)
    ∷ ("PI_NO_FILE_ACCESS", minus 137)
    ∷ ("PI_FILE_IS_A_DIR", minus 138)
    ∷ ("PI_BAD_SHELL_STATUS", minus 139)
    ∷ ("PI_BAD_SCRIPT_NAME", minus 140)
    ∷ ("PI_BAD_SPI_BAUD", minus 141)
    ∷ ("PI_NOT_SPI_GPIO", minus 142)
    ∷ ("PI_BAD_EVENT_ID", minus 143)
    ∷ ("PI_CMD_INTERRUPTED", minus 144)
    ∷ ("PI_PIGIF_ERR_0", minus 2000)
    ∷ ("PI_PIGIF_ERR_99", minus 2099)
    ∷ ("PI_CUSTOM_ERR_0", minus 3000)
    ∷ ("PI_CUSTOM_ERR_999", minus 3999)
    ∷ []
