-- ===== src/PigpioSys/Time.antt =====
-- The layouts of time.h, sched.h and locale.h.
use vender.Prelude.{[], ◌∷◌, some}
use vender.PigpioSys.{
  CType, field, no_fields, LayoutTest, c_int, c_long, c_ulong, u8, pointer, array, struct,
}

abbrev pub fsid_t : CType
fsid_t = struct (field "__val" (array c_int 2) no_fields)

abbrev pub test_layout_fsid_t : LayoutTest
test_layout_fsid_t = record { type = fsid_t; size = 8; align = some 4; offsets = ("__val", 0) ∷ [] }

abbrev pub time_t : CType
time_t = c_long

abbrev pub syscall_slong_t : CType
syscall_slong_t = c_long

abbrev pub timespec : CType
timespec = struct (field "tv_sec" time_t (field "tv_nsec" syscall_slong_t no_fields))

abbrev pub test_layout_timespec : LayoutTest
test_layout_timespec = record {
  type = timespec;
  size = 8;
  align = some 4;
  offsets = ("tv_sec", 0) ∷ ("tv_nsec", 4) ∷ [];
}

abbrev pub sched_param : CType
sched_param = struct (field "__sched_priority" c_int no_fields)

abbrev pub test_layout_sched_param : LayoutTest
test_layout_sched_param = record {
  type = sched_param;
  size = 4;
  align = some 4;
  offsets = ("__sched_priority", 0) ∷ [];
}

abbrev pub libc_sched_param : CType
libc_sched_param = struct (field "__sched_priority" c_int no_fields)

abbrev pub test_layout_libc_sched_param : LayoutTest
test_layout_libc_sched_param = record {
  type = libc_sched_param;
  size = 4;
  align = some 4;
  offsets = ("__sched_priority", 0) ∷ [];
}

abbrev pub cpu_mask : CType
cpu_mask = c_ulong

abbrev pub cpu_set_t : CType
cpu_set_t = struct (field "__bits" (array cpu_mask 32) no_fields)

abbrev pub test_layout_cpu_set_t : LayoutTest
test_layout_cpu_set_t = record {
  type = cpu_set_t;
  size = 128;
  align = some 4;
  offsets = ("__bits", 0) ∷ [];
}

abbrev pub tm : CType
tm = struct (
    field "tm_sec" c_int (
      field "tm_min" c_int (
        field "tm_hour" c_int (
          field "tm_mday" c_int (
            field "tm_mon" c_int (
              field "tm_year" c_int (
                field "tm_wday" c_int (
                  field "tm_yday" c_int (
                    field "tm_isdst" c_int
                      (field "tm_gmtoff" c_long (field "tm_zone" pointer no_fields)))))))))))

abbrev pub test_layout_tm : LayoutTest
test_layout_tm = record {
  type = tm;
  size = 44;
  align = some 4;
  offsets =
      ("tm_sec", 0)
      ∷ ("tm_min", 4)
      ∷ ("tm_hour", 8)
      ∷ ("tm_mday", 12)
      ∷ ("tm_mon", 16)
      ∷ ("tm_year", 20)
      ∷ ("tm_wday", 24)
      ∷ ("tm_yday", 28)
      ∷ ("tm_isdst", 32)
      ∷ ("tm_gmtoff", 36)
      ∷ ("tm_zone", 40)
      ∷ [];
}

abbrev pub itimerspec : CType
itimerspec = struct (field "it_interval" timespec (field "it_value" timespec no_fields))

abbrev pub test_layout_itimerspec : LayoutTest
test_layout_itimerspec = record {
  type = itimerspec;
  size = 16;
  align = some 4;
  offsets = ("it_interval", 0) ∷ ("it_value", 8) ∷ [];
}

abbrev pub sigevent : CType
sigevent = struct (field "_unused" (array u8 0) no_fields)

abbrev pub locale_struct : CType
locale_struct = struct (
    field "__locales" (array pointer 13) (
      field "__ctype_b" pointer (
        field "__ctype_tolower" pointer
          (field "__ctype_toupper" pointer (field "__names" (array pointer 13) no_fields)))))

abbrev pub test_layout_locale_struct : LayoutTest
test_layout_locale_struct = record {
  type = locale_struct;
  size = 116;
  align = some 4;
  offsets =
      ("__locales", 0)
      ∷ ("__ctype_b", 52)
      ∷ ("__ctype_tolower", 56)
      ∷ ("__ctype_toupper", 60)
      ∷ ("__names", 64)
      ∷ [];
}
