-- ===== src/PigpioSys/Gpio.antt =====
-- The layouts of the types of pigpio.h.
use vender.Prelude.{[], ◌∷◌, some}
use vender.PigpioSys.{
  CType, field, no_fields, LayoutTest, c_char, c_int, u16, u32, usize, pointer, array, struct,
}

abbrev pub gpio_header_t : CType
gpio_header_t = struct (field "func" u16 (field "size" u16 no_fields))

abbrev pub test_layout_gpio_header_t : LayoutTest
test_layout_gpio_header_t = record {
  type = gpio_header_t;
  size = 4;
  align = some 2;
  offsets = ("func", 0) ∷ ("size", 2) ∷ [];
}

abbrev pub gpio_extent_t : CType
gpio_extent_t = struct (field "size" usize (field "ptr" pointer (field "data" u32 no_fields)))

abbrev pub test_layout_gpio_extent_t : LayoutTest
test_layout_gpio_extent_t = record {
  type = gpio_extent_t;
  size = 12;
  align = some 4;
  offsets = ("size", 0) ∷ ("ptr", 4) ∷ ("data", 8) ∷ [];
}

abbrev pub gpio_sample_t : CType
gpio_sample_t = struct (field "tick" u32 (field "level" u32 no_fields))

abbrev pub test_layout_gpio_sample_t : LayoutTest
test_layout_gpio_sample_t = record {
  type = gpio_sample_t;
  size = 8;
  align = some 4;
  offsets = ("tick", 0) ∷ ("level", 4) ∷ [];
}

abbrev pub gpio_report_t : CType
gpio_report_t =
    struct (field "seqno" u16 (field "flags" u16 (field "tick" u32 (field "level" u32 no_fields))))

abbrev pub test_layout_gpio_report_t : LayoutTest
test_layout_gpio_report_t = record {
  type = gpio_report_t;
  size = 12;
  align = some 4;
  offsets = ("seqno", 0) ∷ ("flags", 2) ∷ ("tick", 4) ∷ ("level", 8) ∷ [];
}

abbrev pub gpio_pulse_t : CType
gpio_pulse_t = struct (field "gpioOn" u32 (field "gpioOff" u32 (field "usDelay" u32 no_fields)))

abbrev pub test_layout_gpio_pulse_t : LayoutTest
test_layout_gpio_pulse_t = record {
  type = gpio_pulse_t;
  size = 12;
  align = some 4;
  offsets = ("gpioOn", 0) ∷ ("gpioOff", 4) ∷ ("usDelay", 8) ∷ [];
}

abbrev pub raw_wave_t : CType
raw_wave_t =
    struct
      (field "gpioOn" u32 (field "gpioOff" u32 (field "usDelay" u32 (field "flags" u32 no_fields))))

abbrev pub test_layout_raw_wave_t : LayoutTest
test_layout_raw_wave_t = record {
  type = raw_wave_t;
  size = 16;
  align = some 4;
  offsets = ("gpioOn", 0) ∷ ("gpioOff", 4) ∷ ("usDelay", 8) ∷ ("flags", 12) ∷ [];
}

abbrev pub raw_wave_info_t : CType
raw_wave_info_t = struct (
    field "botCB" u16 (
      field "topCB" u16 (
        field "botOOL" u16 (
          field "topOOL" u16 (
            field "deleted" u16
              (field "numCB" u16 (field "numBOOL" u16 (field "numTOOL" u16 no_fields))))))))

abbrev pub test_layout_raw_wave_info_t : LayoutTest
test_layout_raw_wave_info_t = record {
  type = raw_wave_info_t;
  size = 16;
  align = some 2;
  offsets =
      ("botCB", 0)
      ∷ ("topCB", 2)
      ∷ ("botOOL", 4)
      ∷ ("topOOL", 6)
      ∷ ("deleted", 8)
      ∷ ("numCB", 10)
      ∷ ("numBOOL", 12)
      ∷ ("numTOOL", 14)
      ∷ [];
}

abbrev pub raw_spi_t : CType
raw_spi_t = struct (
    field "clk" c_int (
      field "mosi" c_int (
        field "miso" c_int (
          field "ss_pol" c_int (
            field "ss_us" c_int
              (field "clk_pol" c_int (field "clk_pha" c_int (field "clk_us" c_int no_fields))))))))

abbrev pub test_layout_raw_spi_t : LayoutTest
test_layout_raw_spi_t = record {
  type = raw_spi_t;
  size = 32;
  align = some 4;
  offsets =
      ("clk", 0)
      ∷ ("mosi", 4)
      ∷ ("miso", 8)
      ∷ ("ss_pol", 12)
      ∷ ("ss_us", 16)
      ∷ ("clk_pol", 20)
      ∷ ("clk_pha", 24)
      ∷ ("clk_us", 28)
      ∷ [];
}

abbrev pub raw_cbs_t : CType
raw_cbs_t = struct (
    field "info" u32 (
      field "src" u32 (
        field "dst" u32 (
          field "length" u32
            (field "stride" u32 (field "next" u32 (field "pad" (array u32 2) no_fields)))))))

abbrev pub test_layout_raw_cbs_t : LayoutTest
test_layout_raw_cbs_t = record {
  type = raw_cbs_t;
  size = 32;
  align = some 4;
  offsets =
      ("info", 0)
      ∷ ("src", 4)
      ∷ ("dst", 8)
      ∷ ("length", 12)
      ∷ ("stride", 16)
      ∷ ("next", 20)
      ∷ ("pad", 24)
      ∷ [];
}

abbrev pub pi_i2c_msg_t : CType
pi_i2c_msg_t =
    struct (field "addr" u16 (field "flags" u16 (field "len" u16 (field "buf" pointer no_fields))))

abbrev pub test_layout_pi_i2c_msg_t : LayoutTest
test_layout_pi_i2c_msg_t = record {
  type = pi_i2c_msg_t;
  size = 12;
  align = some 4;
  offsets = ("addr", 0) ∷ ("flags", 2) ∷ ("len", 4) ∷ ("buf", 8) ∷ [];
}

abbrev pub bsc_xfer_t : CType
bsc_xfer_t = struct (
    field "control" u32 (
      field "rxCnt" c_int (
        field "rxBuf" (array c_char 512)
          (field "txCnt" c_int (field "txBuf" (array c_char 512) no_fields)))))

abbrev pub test_layout_bsc_xfer_t : LayoutTest
test_layout_bsc_xfer_t = record {
  type = bsc_xfer_t;
  size = 1036;
  align = some 4;
  offsets = ("control", 0) ∷ ("rxCnt", 4) ∷ ("rxBuf", 8) ∷ ("txCnt", 520) ∷ ("txBuf", 524) ∷ [];
}
