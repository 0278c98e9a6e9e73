-- ===== src/Examples/Symbols.antt =====
-- Symbol lookup of interception/interception.cpp, with the macros that `cuda.h` has for cuMemAlloc
-- and cuGetProcAddress.
use text.Mathlib.Text.{◌==◌}
use Prim.Native.String.{String}
use fan_master_thesis.Base.{ℕ, ◌≡◌, ◌⊎◌, inl, inr, refl, Option, some, if◌then◌else◌}
use fan_master_thesis.Dispatch.{
  Address, own, foreign, proc_address_name, proc_rows, hook_rows, dlsym, proc_address, hook_symbol,
}
use fan_master_thesis.Dispatch.Lookup.{IsRow, dlsym-own_name}
use fan_master_thesis.Dispatch.Rows.{find, proc_address-row, hook_symbol-row}

unfoldable versioned : String → String
versioned s =
    if s == "cuMemAlloc"
    then "cuMemAlloc_v2"
    else if s == "cuGetProcAddress"
    then "cuGetProcAddress_v2"
    else s

unfoldable c_library : String → Option ℕ
c_library symbol = some 4096

unfoldable installed_driver : String → ℕ × Option Address
installed_driver symbol = (0, some (foreign 8192))

asked : dlsym versioned c_library "cuGetProcAddress_v2" ≡ some (own proc_address_name)
unfolding dlsym versioned
asked = refl

dlsym-own_name_example :
    (proc_address_name ≡ "cuGetProcAddress_v2")
    ⊎ (("cuGetProcAddress_v2" ≡ versioned "cuGetProcAddress")
        × (proc_address_name ≡ proc_address_name))
dlsym-own_name_example =
    dlsym-own_name versioned c_library "cuGetProcAddress_v2" proc_address_name asked

total_mem_symbol-IsRow : IsRow ("cuDeviceTotalMem", "cuDeviceTotalMem_v2") proc_rows
unfolding proc_rows
total_mem_symbol-IsRow = inr (inr (inr (inr (inr (inl refl)))))

hooked-IsRow : IsRow ("cuDeviceGetP2PAttribute", "cuDeviceGetP2PAttribute_intercepted") proc_rows
unfolding proc_rows
hooked-IsRow = inr (inr (inr (inr (inr (inr (inr (inl refl)))))))

proc_address-row_example :
    proc_address versioned installed_driver "cuDeviceTotalMem"
    ≡ (0, some (own (versioned "cuDeviceTotalMem_v2")))
proc_address-row_example =
    proc_address-row versioned installed_driver "cuDeviceTotalMem" "cuDeviceTotalMem_v2"
      total_mem_symbol-IsRow refl

found_hook : find "cuDeviceGetP2PAttribute_intercepted" hook_rows ≡ some "cuDeviceGetP2PAttribute"
unfolding find hook_rows
found_hook = refl

hook_symbol-row_example :
    (proc_address versioned installed_driver "cuDeviceGetP2PAttribute"
      ≡ (0, some (own (versioned "cuDeviceGetP2PAttribute_intercepted"))))
    × (hook_symbol versioned hook_rows "cuDeviceGetP2PAttribute_intercepted"
        ≡ some (versioned "cuDeviceGetP2PAttribute"))
hook_symbol-row_example =
    hook_symbol-row versioned installed_driver "cuDeviceGetP2PAttribute"
      "cuDeviceGetP2PAttribute_intercepted" "cuDeviceGetP2PAttribute" hooked-IsRow refl found_hook
