-- ===== src/PigpioSys/LayoutTests.antt =====
-- The layout tests of the bindings, all together.
use vender.Prelude.{ℕ, ◌≡◌, List, [], ◌∷◌, some, get_elem?, All, All-get_elem?, arith}
use vender.PigpioSys.{
  LayoutTest, Passes, size_of, align_of, align_of_fields, end_of, widest, round_up, offset_in,
  slots, struct_slots, union_slots,
}
use vender.PigpioSys.Time.{
  test_layout_fsid_t, test_layout_timespec, test_layout_sched_param, test_layout_libc_sched_param,
  test_layout_cpu_set_t, test_layout_tm, test_layout_itimerspec, test_layout_locale_struct,
}
use vender.PigpioSys.Locks.{
  test_layout_pthread_attr_t, test_layout_pthread_internal_slist,
  test_layout_pthread_mutex_t_pthread_mutex_s_bindgen_ty_1,
  test_layout_pthread_mutex_t_pthread_mutex_s, test_layout_pthread_mutex_t,
  test_layout_pthread_mutexattr_t, test_layout_pthread_cond_t_bindgen_ty_1,
  test_layout_pthread_cond_t, test_layout_pthread_condattr_t,
  test_layout_pthread_rwlock_t_bindgen_ty_1, test_layout_pthread_rwlock_t,
}
use vender.PigpioSys.Threads.{
  test_layout_pthread_rwlockattr_t, test_layout_pthread_barrier_t,
  test_layout_pthread_barrierattr_t, test_layout_pthread_cleanup_buffer,
  test_layout_pthread_unwind_buf_t_bindgen_ty_1, test_layout_pthread_unwind_buf_t,
  test_layout_pthread_cleanup_frame,
}
use vender.PigpioSys.Gpio.{
  test_layout_gpio_header_t, test_layout_gpio_extent_t, test_layout_gpio_sample_t,
  test_layout_gpio_report_t, test_layout_gpio_pulse_t, test_layout_raw_wave_t,
  test_layout_raw_wave_info_t, test_layout_raw_spi_t, test_layout_raw_cbs_t,
  test_layout_pi_i2c_msg_t, test_layout_bsc_xfer_t,
}

-- The functions that `cargo test` runs, in the order of the file.
abbrev pub layout_tests : List LayoutTest
layout_tests =
    test_layout_fsid_t ∷ test_layout_timespec ∷ test_layout_sched_param
    ∷ test_layout_libc_sched_param ∷ test_layout_cpu_set_t ∷ test_layout_tm ∷ test_layout_itimerspec
    ∷ test_layout_locale_struct ∷ test_layout_pthread_attr_t ∷ test_layout_pthread_internal_slist
    ∷ test_layout_pthread_mutex_t_pthread_mutex_s_bindgen_ty_1
    ∷ test_layout_pthread_mutex_t_pthread_mutex_s ∷ test_layout_pthread_mutex_t
    ∷ test_layout_pthread_mutexattr_t ∷ test_layout_pthread_cond_t_bindgen_ty_1
    ∷ test_layout_pthread_cond_t ∷ test_layout_pthread_condattr_t
    ∷ test_layout_pthread_rwlock_t_bindgen_ty_1 ∷ test_layout_pthread_rwlock_t
    ∷ test_layout_pthread_rwlockattr_t ∷ test_layout_pthread_barrier_t
    ∷ test_layout_pthread_barrierattr_t ∷ test_layout_pthread_cleanup_buffer
    ∷ test_layout_pthread_unwind_buf_t_bindgen_ty_1 ∷ test_layout_pthread_unwind_buf_t
    ∷ test_layout_pthread_cleanup_frame ∷ test_layout_gpio_header_t ∷ test_layout_gpio_extent_t
    ∷ test_layout_gpio_sample_t ∷ test_layout_gpio_report_t ∷ test_layout_gpio_pulse_t
    ∷ test_layout_raw_wave_t ∷ test_layout_raw_wave_info_t ∷ test_layout_raw_spi_t
    ∷ test_layout_raw_cbs_t ∷ test_layout_pi_i2c_msg_t ∷ test_layout_bsc_xfer_t ∷ []

layout_tests-All : All Passes layout_tests
unfolding size_of align_of align_of_fields end_of widest round_up offset_in slots struct_slots
    union_slots
layout_tests-All = ground arith

-- Every layout test of the bindings passes on a 32-bit ARM: the size of the type, its alignment
-- where the test asserts one, and the offset of each field that it names, are what `repr(C)` makes
-- them.
pub layout_tests-Pass : (i : ℕ) (t : LayoutTest) → get_elem? layout_tests i ≡ some t → Passes t
layout_tests-Pass i t e = All-get_elem? Passes layout_tests i layout_tests-All e
