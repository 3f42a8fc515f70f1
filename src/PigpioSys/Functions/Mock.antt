-- ===== src/PigpioSys/Functions/Mock.antt =====
-- The functions of hardware/pigpio-rust/src/mock.rs, next to those of the bindings.
use vender.Prelude.{
  ℕ, ◌≡◌, List, [], ◌∷◌, ◌++◌, some, get_elem?, All, All-get_elem?, arith, Option, none,
}
use vender.PigpioSys.{no_fields, field, u32, i32, usize, CType, const_pointer, mut_pointer}
use vender.PigpioSys.Functions.{
  Function, Signature, declare, signature, signature_in, types_of, resolve,
}
use vender.PigpioSys.Functions.Pins.{pin_functions, wave_functions}
use vender.PigpioSys.Functions.Buses.{i2c_functions, bit_bang_functions, serial_functions}
use vender.PigpioSys.Functions.System.{
  callback_functions, bank_functions, file_functions, setting_functions, raw_functions,
}

-- The declarations of pigpio.h, in the order of the file.
abbrev pub pigpio_functions : List Function
pigpio_functions =
    pin_functions ++ wave_functions ++ i2c_functions ++ bit_bang_functions ++ serial_functions
    ++ callback_functions ++ bank_functions ++ file_functions ++ setting_functions ++ raw_functions

abbrev pub mock_functions : List Function
mock_functions =
    declare "gpioCfgInterfaces" (field "_" u32 no_fields) (some i32)
    ∷ declare "gpioInitialise" no_fields (some i32)
    ∷ declare "gpioTick" no_fields (some u32)
    ∷ declare "gpioDelay" (field "d" u32 no_fields) (some u32)
    ∷ declare "gpioSerialReadOpen" (field "_" u32 (field "_" u32 (field "_" u32 no_fields)))
        (some i32)
    ∷ declare "gpioSerialReadClose" (field "_" u32 no_fields) (some i32)
    ∷ declare "gpioSerialRead"
        (field "_" u32 (field "_" (mut_pointer "c_void") (field "_" usize no_fields))) (some i32)
    ∷ declare "gpioWaveAddNew" no_fields (some i32)
    ∷ declare "gpioWaveAddSerial"
        (field "_" u32 (
          field "_" u32 (
            field "_" u32 (
              field "_" u32
                (field "_" u32 (field "_" u32 (field "_" (const_pointer "c_char") no_fields)))))))
        (some i32)
    ∷ declare "gpioWaveCreate" no_fields (some i32)
    ∷ declare "gpioWaveDelete" (field "_" u32 no_fields) (some i32)
    ∷ declare "gpioWaveTxBusy" no_fields (some i32)
    ∷ declare "gpioWaveTxSend" (field "_" u32 (field "_" u32 no_fields)) (some i32)
    ∷ declare "gpioWaveTxStop" no_fields (some i32)
    ∷ declare "gpioSetMode" (field "_" u32 (field "_" u32 no_fields)) (some i32)
    ∷ declare "gpioWrite" (field "_" u32 (field "_" u32 no_fields)) (some i32)
    ∷ []

-- A value of the first type can be given where one of the second is wanted: the types are the same,
-- or the pointer may be used for writing and is wanted for reading.
abbrev Coerces : CType → CType → Type 0
Coerces (mut_pointer t) (const_pointer u) = t ≡ u
Coerces t u = t ≡ u

abbrev AllCoerce : List CType → List CType → Type 0
AllCoerce [] [] = Unit
AllCoerce (t ∷ ts) (u ∷ us) = Coerces t u × AllCoerce ts us
AllCoerce _ _ = ⊥

-- A function that is called with the second signature in mind can be one with the first.
abbrev Replaces : Signature → Option Signature → Type 0
Replaces f none = ⊥
Replaces f (some g) = AllCoerce g.params f.params × (f.result ≡ g.result)

-- The bindings declare a function of that name, and what is given to it can be given to this one.
abbrev pub StandsIn : Function → Type 0
StandsIn f = Replaces (signature f) (signature_in pigpio_functions f.name)

mock_functions-All : All StandsIn mock_functions
unfolding signature_in signature types_of resolve
mock_functions-All = ground arith

-- Every function of the mock stands in for one of the bindings: under its name they declare a
-- function with as many parameters and, with the types of `std::os::raw` on 32-bit ARM Linux, the
-- same result, and the same type at each place, but that the mock may take a `*const T` where the
-- bindings take a `*mut T`. So each call that fits the bindings fits the mock.
pub mock_functions-StandsIn :
    (i : ℕ) (f : Function) → get_elem? mock_functions i ≡ some f → StandsIn f
mock_functions-StandsIn i f e = All-get_elem? StandsIn mock_functions i mock_functions-All e
