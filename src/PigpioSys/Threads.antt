-- ===== src/PigpioSys/Threads.antt =====
-- The layouts of the attribute, barrier and cleanup types of pthread.h.
use vender.Prelude.{[], ◌∷◌, none, some}
use vender.PigpioSys.{
  CType, field, no_fields, LayoutTest, c_char, c_int, c_long, u32, pointer, array, struct, union,
}

abbrev pub pthread_rwlockattr_t : CType
pthread_rwlockattr_t = union (
    field "__size" (array c_char 8)
      (field "__align" c_long (field "_bindgen_union_align" (array u32 2) no_fields)))

abbrev pub test_layout_pthread_rwlockattr_t : LayoutTest
test_layout_pthread_rwlockattr_t = record {
  type = pthread_rwlockattr_t;
  size = 8;
  align = some 4;
  offsets = ("__size", 0) ∷ ("__align", 0) ∷ [];
}

abbrev pub pthread_barrier_t : CType
pthread_barrier_t = union (
    field "__size" (array c_char 20)
      (field "__align" c_long (field "_bindgen_union_align" (array u32 5) no_fields)))

abbrev pub test_layout_pthread_barrier_t : LayoutTest
test_layout_pthread_barrier_t = record {
  type = pthread_barrier_t;
  size = 20;
  align = some 4;
  offsets = ("__size", 0) ∷ ("__align", 0) ∷ [];
}

abbrev pub pthread_barrierattr_t : CType
pthread_barrierattr_t = union (
    field "__size" (array c_char 4)
      (field "__align" c_int (field "_bindgen_union_align" u32 no_fields)))

abbrev pub test_layout_pthread_barrierattr_t : LayoutTest
test_layout_pthread_barrierattr_t = record {
  type = pthread_barrierattr_t;
  size = 4;
  align = some 4;
  offsets = ("__size", 0) ∷ ("__align", 0) ∷ [];
}

abbrev pub pthread_cleanup_buffer : CType
pthread_cleanup_buffer = struct (
    field "__routine" pointer
      (field "__arg" pointer (field "__canceltype" c_int (field "__prev" pointer no_fields))))

abbrev pub test_layout_pthread_cleanup_buffer : LayoutTest
test_layout_pthread_cleanup_buffer = record {
  type = pthread_cleanup_buffer;
  size = 16;
  align = some 4;
  offsets = ("__routine", 0) ∷ ("__arg", 4) ∷ ("__canceltype", 8) ∷ ("__prev", 12) ∷ [];
}

abbrev pub jmp_buf : CType
jmp_buf = array c_int 64

abbrev pub pthread_unwind_buf_t_bindgen_ty_1 : CType
pthread_unwind_buf_t_bindgen_ty_1 = struct (
    field "__cancel_jmp_buf" jmp_buf
      (field "__mask_was_saved" c_int (field "__bindgen_padding_0" u32 no_fields)))

abbrev pub test_layout_pthread_unwind_buf_t_bindgen_ty_1 : LayoutTest
test_layout_pthread_unwind_buf_t_bindgen_ty_1 = record {
  type = pthread_unwind_buf_t_bindgen_ty_1;
  size = 264;
  align = none;
  offsets = ("__cancel_jmp_buf", 0) ∷ ("__mask_was_saved", 256) ∷ [];
}

abbrev pub pthread_unwind_buf_t : CType
pthread_unwind_buf_t = struct (
    field "__cancel_jmp_buf" (array pthread_unwind_buf_t_bindgen_ty_1 1)
      (field "__pad" (array pointer 4) no_fields))

abbrev pub test_layout_pthread_unwind_buf_t : LayoutTest
test_layout_pthread_unwind_buf_t = record {
  type = pthread_unwind_buf_t;
  size = 280;
  align = none;
  offsets = ("__cancel_jmp_buf", 0) ∷ ("__pad", 264) ∷ [];
}

abbrev pub pthread_cleanup_frame : CType
pthread_cleanup_frame = struct (
    field "__cancel_routine" pointer (
      field "__cancel_arg" pointer (field "__do_it" c_int (field "__cancel_type" c_int no_fields))))

abbrev pub test_layout_pthread_cleanup_frame : LayoutTest
test_layout_pthread_cleanup_frame = record {
  type = pthread_cleanup_frame;
  size = 16;
  align = some 4;
  offsets =
      ("__cancel_routine", 0) ∷ ("__cancel_arg", 4) ∷ ("__do_it", 8) ∷ ("__cancel_type", 12) ∷ [];
}
