-- ===== src/PigpioSys/Locks.antt =====
-- The layouts of the mutex, condition and lock types of pthread.h.
use vender.Prelude.{[], ◌∷◌, none, some}
use vender.PigpioSys.{
  CType, field, no_fields, LayoutTest, c_char, c_uchar, c_int, c_uint, c_long, c_longlong,
  c_ulonglong, u32, u64, pointer, array, struct, union,
}

abbrev pub pthread_attr_t : CType
pthread_attr_t = union (
    field "__size" (array c_char 36)
      (field "__align" c_long (field "_bindgen_union_align" (array u32 9) no_fields)))

abbrev pub test_layout_pthread_attr_t : LayoutTest
test_layout_pthread_attr_t = record {
  type = pthread_attr_t;
  size = 36;
  align = some 4;
  offsets = ("__size", 0) ∷ ("__align", 0) ∷ [];
}

abbrev pub pthread_internal_slist : CType
pthread_internal_slist = struct (field "__next" pointer no_fields)

abbrev pub test_layout_pthread_internal_slist : LayoutTest
test_layout_pthread_internal_slist = record {
  type = pthread_internal_slist;
  size = 4;
  align = some 4;
  offsets = ("__next", 0) ∷ [];
}

abbrev pub pthread_slist_t : CType
pthread_slist_t = pthread_internal_slist

abbrev pub pthread_mutex_t_pthread_mutex_s_bindgen_ty_1 : CType
pthread_mutex_t_pthread_mutex_s_bindgen_ty_1 = union (
    field "__spins" c_int
      (field "__list" pthread_slist_t (field "_bindgen_union_align" u32 no_fields)))

abbrev pub test_layout_pthread_mutex_t_pthread_mutex_s_bindgen_ty_1 : LayoutTest
test_layout_pthread_mutex_t_pthread_mutex_s_bindgen_ty_1 = record {
  type = pthread_mutex_t_pthread_mutex_s_bindgen_ty_1;
  size = 4;
  align = some 4;
  offsets = ("__spins", 0) ∷ ("__list", 0) ∷ [];
}

abbrev pub pthread_mutex_t_pthread_mutex_s : CType
pthread_mutex_t_pthread_mutex_s = struct (
    field "__lock" c_int (
      field "__count" c_uint (
        field "__owner" c_int (
          field "__kind" c_int (
            field "__nusers" c_uint
              (field "__bindgen_anon_1" pthread_mutex_t_pthread_mutex_s_bindgen_ty_1 no_fields))))))

abbrev pub test_layout_pthread_mutex_t_pthread_mutex_s : LayoutTest
test_layout_pthread_mutex_t_pthread_mutex_s = record {
  type = pthread_mutex_t_pthread_mutex_s;
  size = 24;
  align = some 4;
  offsets =
      ("__lock", 0) ∷ ("__count", 4) ∷ ("__owner", 8) ∷ ("__kind", 12) ∷ ("__nusers", 16) ∷ [];
}

abbrev pub pthread_mutex_t : CType
pthread_mutex_t = union (
    field "__data" pthread_mutex_t_pthread_mutex_s (
      field "__size" (array c_char 24)
        (field "__align" c_long (field "_bindgen_union_align" (array u32 6) no_fields))))

abbrev pub test_layout_pthread_mutex_t : LayoutTest
test_layout_pthread_mutex_t = record {
  type = pthread_mutex_t;
  size = 24;
  align = some 4;
  offsets = ("__data", 0) ∷ ("__size", 0) ∷ ("__align", 0) ∷ [];
}

abbrev pub pthread_mutexattr_t : CType
pthread_mutexattr_t = union (
    field "__size" (array c_char 4)
      (field "__align" c_long (field "_bindgen_union_align" u32 no_fields)))

abbrev pub test_layout_pthread_mutexattr_t : LayoutTest
test_layout_pthread_mutexattr_t = record {
  type = pthread_mutexattr_t;
  size = 4;
  align = some 4;
  offsets = ("__size", 0) ∷ ("__align", 0) ∷ [];
}

abbrev pub pthread_cond_t_bindgen_ty_1 : CType
pthread_cond_t_bindgen_ty_1 = struct (
    field "__lock" c_int (
      field "__futex" c_uint (
        field "__total_seq" c_ulonglong (
          field "__wakeup_seq" c_ulonglong (
            field "__woken_seq" c_ulonglong (
              field "__mutex" pointer (
                field "__nwaiters" c_uint (
                  field "__broadcast_seq" c_uint (field "__bindgen_padding_0" u32 no_fields)))))))))

abbrev pub test_layout_pthread_cond_t_bindgen_ty_1 : LayoutTest
test_layout_pthread_cond_t_bindgen_ty_1 = record {
  type = pthread_cond_t_bindgen_ty_1;
  size = 48;
  align = none;
  offsets =
      ("__lock", 0)
      ∷ ("__futex", 4)
      ∷ ("__total_seq", 8)
      ∷ ("__wakeup_seq", 16)
      ∷ ("__woken_seq", 24)
      ∷ ("__mutex", 32)
      ∷ ("__nwaiters", 36)
      ∷ ("__broadcast_seq", 40)
      ∷ [];
}

abbrev pub pthread_cond_t : CType
pthread_cond_t = union (
    field "__data" pthread_cond_t_bindgen_ty_1 (
      field "__size" (array c_char 48)
        (field "__align" c_longlong (field "_bindgen_union_align" (array u64 6) no_fields))))

abbrev pub test_layout_pthread_cond_t : LayoutTest
test_layout_pthread_cond_t = record {
  type = pthread_cond_t;
  size = 48;
  align = none;
  offsets = ("__data", 0) ∷ ("__size", 0) ∷ ("__align", 0) ∷ [];
}

abbrev pub pthread_condattr_t : CType
pthread_condattr_t = union (
    field "__size" (array c_char 4)
      (field "__align" c_long (field "_bindgen_union_align" u32 no_fields)))

abbrev pub test_layout_pthread_condattr_t : LayoutTest
test_layout_pthread_condattr_t = record {
  type = pthread_condattr_t;
  size = 4;
  align = some 4;
  offsets = ("__size", 0) ∷ ("__align", 0) ∷ [];
}

abbrev pub pthread_rwlock_t_bindgen_ty_1 : CType
pthread_rwlock_t_bindgen_ty_1 = struct (
    field "__lock" c_int (
      field "__nr_readers" c_uint (
        field "__readers_wakeup" c_uint (
          field "__writer_wakeup" c_uint (
            field "__nr_readers_queued" c_uint (
              field "__nr_writers_queued" c_uint (
                field "__flags" c_uchar (
                  field "__shared" c_uchar (
                    field "__pad1" c_uchar
                      (field "__pad2" c_uchar (field "__writer" c_int no_fields)))))))))))

abbrev pub test_layout_pthread_rwlock_t_bindgen_ty_1 : LayoutTest
test_layout_pthread_rwlock_t_bindgen_ty_1 = record {
  type = pthread_rwlock_t_bindgen_ty_1;
  size = 32;
  align = some 4;
  offsets =
      ("__lock", 0)
      ∷ ("__nr_readers", 4)
      ∷ ("__readers_wakeup", 8)
      ∷ ("__writer_wakeup", 12)
      ∷ ("__nr_readers_queued", 16)
      ∷ ("__nr_writers_queued", 20)
      ∷ ("__flags", 24)
      ∷ ("__shared", 25)
      ∷ ("__pad1", 26)
      ∷ ("__pad2", 27)
      ∷ ("__writer", 28)
      ∷ [];
}

abbrev pub pthread_rwlock_t : CType
pthread_rwlock_t = union (
    field "__data" pthread_rwlock_t_bindgen_ty_1 (
      field "__size" (array c_char 32)
        (field "__align" c_long (field "_bindgen_union_align" (array u32 8) no_fields))))

abbrev pub test_layout_pthread_rwlock_t : LayoutTest
test_layout_pthread_rwlock_t = record {
  type = pthread_rwlock_t;
  size = 32;
  align = some 4;
  offsets = ("__data", 0) ∷ ("__size", 0) ∷ ("__align", 0) ∷ [];
}
