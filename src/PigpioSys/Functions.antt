-- ===== src/PigpioSys/Functions.antt =====
-- hardware/pigpio-sys/src/bindings-arm-linux.rs: the functions of pigpio.h that it declares. The
-- children have the declarations; Mock compares those of hardware/pigpio-rust/src/mock.rs.
pub mod Pins
pub mod Buses
pub mod System
pub mod Mock
use vender.Prelude.{String, List, [], ◌∷◌, Option, none, some, if◌then◌else◌}
use vender.PigpioSys.{
  CType, Fields, no_fields, field, c_char, c_uchar, c_short, c_ushort, c_int, c_uint, c_long,
  c_ulong, c_longlong, c_ulonglong, u8, u16, u32, u64, i16, i32, i64, text_eq,
}

-- A foreign function: its parameters in their order, and what it returns, if anything.
pub record Function : Type 0 where
  pub name : String
  pub params : Fields
  pub result : Option CType

abbrev pub declare : String → Fields → Option CType → Function
declare name params result = record { name = name; params = params; result = result }

-- What the types of `std::os::raw` are on 32-bit ARM Linux.
unfoldable pub resolve : CType → CType
resolve c_char = u8
resolve c_uchar = u8
resolve c_short = i16
resolve c_ushort = u16
resolve c_int = i32
resolve c_uint = u32
resolve c_long = i32
resolve c_ulong = u32
resolve c_longlong = i64
resolve c_ulonglong = u64
resolve t = t

unfoldable pub types_of : Fields → List CType
unfolding resolve
types_of no_fields = []
types_of (field name t fs) = resolve t ∷ types_of fs

abbrev pub resolved : Option CType → Option CType
resolved none = none
resolved (some t) = some (resolve t)

-- The types that a caller must respect.
pub record Signature : Type 0 where
  pub params : List CType
  pub result : Option CType

unfoldable pub signature : Function → Signature
unfolding types_of resolve
signature f = record { params = types_of f.params; result = resolved f.result }

-- The signature under a name.
unfoldable pub signature_in : List Function → String → Option Signature
unfolding signature
signature_in [] name = none
signature_in (f ∷ fs) name =
    if text_eq f.name name then some (signature f) else signature_in fs name
