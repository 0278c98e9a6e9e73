-- ===== src/Gpu/Shadowed.antt =====
-- The second branch for cudaGetDeviceProperties in interception/gpu_instance.cpp.
use Prim.Native.String.{String}
use fan_master_thesis.Base.{ℕ, ◌≢◌, some, List, arith}
use fan_master_thesis.Gpu.Chain.{get_device_properties_of_branch, chain, choose, mapped, branch_of}

-- No name chooses the second branch for cudaGetDeviceProperties, however the preprocessor spells
-- the symbols: the first takes every call of that name.
pub branch_of-second :
    (spell : String → List ℕ) (name : List ℕ)
    → branch_of spell name ≢ some get_device_properties_of_branch
unfolding branch_of choose chain mapped
branch_of-second spell name e = ground arith
