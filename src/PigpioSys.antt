-- ===== src/PigpioSys.antt =====
-- hardware/pigpio-sys/src/bindings-arm-linux.rs: the C types that the generated declarations are
-- about. This file says how `repr(C)` lays out a type on 32-bit ARM; its children have the types.
pub mod Time
pub mod Locks
pub mod Threads
pub mod Gpio
pub mod Codes
pub mod LayoutTests
pub mod Functions
use Prim.Native.Nat.{Ordering}
use Prim.Native.String.{compare}
use vender.Prelude.{
  ℕ, ◌+◌, ◌-◌, ◌*◌, ◌%◌, ◌≡◌, Bool, true, false, String, List, [], ◌∷◌, Option, none, some,
  if◌then◌else◌,
}

mutual
  -- A type of the bindings. In a struct `pointer` stands for each `*const T`, `*mut T` and
  -- `Option<fn>`, which are one word whatever they point to; in the declaration of a function they
  -- have the name of the type that they point to, or that of the type of the callback.
  pub data CType : Type 0 where
    c_char c_uchar c_short c_ushort c_int c_uint c_long c_ulong : CType
    c_longlong c_ulonglong u8 u16 u32 u64 i16 i32 i64 f64 usize pointer : CType
    const_pointer mut_pointer callback : String → CType
    array : CType → ℕ → CType
    struct union : Fields → CType

  -- The fields of a struct or of a union, in their order.
  pub data Fields : Type 0 where
    no_fields : Fields
    field : String → CType → Fields → Fields

abbrev pub max : ℕ → ℕ → ℕ
max m n = m + (n - m)

-- The least multiple of `align` that is not below `n`.
unfoldable pub round_up : (n align : ℕ) → ℕ
round_up n align = n + (align - n % align) % align

unfoldable mutual
  pub align_of : CType → ℕ
  align_of c_char = 1
  align_of c_uchar = 1
  align_of c_short = 2
  align_of c_ushort = 2
  align_of c_int = 4
  align_of c_uint = 4
  align_of c_long = 4
  align_of c_ulong = 4
  align_of c_longlong = 8
  align_of c_ulonglong = 8
  align_of u8 = 1
  align_of u16 = 2
  align_of u32 = 4
  align_of u64 = 8
  align_of i16 = 2
  align_of i32 = 4
  align_of i64 = 8
  align_of f64 = 8
  align_of usize = 4
  align_of pointer = 4
  align_of (const_pointer name) = 4
  align_of (mut_pointer name) = 4
  align_of (callback name) = 4
  align_of (array t n) = align_of t
  align_of (struct fs) = align_of_fields fs
  align_of (union fs) = align_of_fields fs

  pub align_of_fields : Fields → ℕ
  align_of_fields no_fields = 1
  align_of_fields (field name t fs) = max (align_of t) (align_of_fields fs)

unfoldable mutual
  unfolding round_up align_of align_of_fields

  pub size_of : CType → ℕ
  size_of c_char = 1
  size_of c_uchar = 1
  size_of c_short = 2
  size_of c_ushort = 2
  size_of c_int = 4
  size_of c_uint = 4
  size_of c_long = 4
  size_of c_ulong = 4
  size_of c_longlong = 8
  size_of c_ulonglong = 8
  size_of u8 = 1
  size_of u16 = 2
  size_of u32 = 4
  size_of u64 = 8
  size_of i16 = 2
  size_of i32 = 4
  size_of i64 = 8
  size_of f64 = 8
  size_of usize = 4
  size_of pointer = 4
  size_of (const_pointer name) = 4
  size_of (mut_pointer name) = 4
  size_of (callback name) = 4
  size_of (array t n) = n * size_of t
  size_of (struct fs) = round_up (end_of 0 fs) (align_of_fields fs)
  size_of (union fs) = round_up (widest fs) (align_of_fields fs)

  -- Where the fields of a struct end, if they begin at `from`.
  pub end_of : (from : ℕ) → Fields → ℕ
  end_of from no_fields = from
  end_of from (field name t fs) = end_of (round_up from (align_of t) + size_of t) fs

  pub widest : Fields → ℕ
  widest no_fields = 0
  widest (field name t fs) = max (size_of t) (widest fs)

-- A field at its place.
pub record Slot : Type 0 where
  pub name : String
  pub offset : ℕ
  pub type : CType

unfoldable pub struct_slots : (from : ℕ) → Fields → List Slot
struct_slots from no_fields = []
struct_slots from (field name t fs) =
    let at = round_up from (align_of t) in
    record { name = name; offset = at; type = t } ∷ struct_slots (at + size_of t) fs

unfoldable pub union_slots : Fields → List Slot
union_slots no_fields = []
union_slots (field name t fs) = record { name = name; offset = 0; type = t } ∷ union_slots fs

unfoldable pub slots : CType → List Slot
unfolding struct_slots union_slots
slots (struct fs) = struct_slots 0 fs
slots (union fs) = union_slots fs
slots _ = []

abbrev pub text_eq : String → String → Bool
text_eq s t = elim (compare s t) [ Ordering.eq ↦ true | _ ↦ false ]

unfoldable pub offset_in : List Slot → String → Option ℕ
offset_in [] name = none
offset_in (s ∷ ss) name = if text_eq s.name name then some s.offset else offset_in ss name

-- A function `bindgen_test_layout_…`: what it asserts of the size, of the alignment (some assert
-- nothing of it) and of the offsets.
pub record LayoutTest : Type 0 where
  pub type : CType
  pub size : ℕ
  pub align : Option ℕ
  pub offsets : List (String × ℕ)

abbrev pub Aligns : Option ℕ → CType → Type 0
Aligns none t = Unit
Aligns (some a) t = align_of t ≡ a

abbrev pub Places : List (String × ℕ) → List Slot → Type 0
Places [] ss = Unit
Places ((name, offset) ∷ rest) ss = (offset_in ss name ≡ some offset) × Places rest ss

-- The assertions hold.
abbrev pub Passes : LayoutTest → Type 0
Passes t = (size_of t.type ≡ t.size) × Aligns t.align t.type × Places t.offsets (slots t.type)
