-- ===== src/Gpu/Signatures.antt =====
-- The parameters of the driver functions whose branch in interception/gpu_instance.cpp reads the
-- arguments, points the results at locals and sends all arguments back, and of the functions in
-- `func_map` of interception/gpu_instance.h, which have no results.
use Prim.Native.String.{String}
use fan_master_thesis.Base.{List, [], ◌∷◌}
use fan_master_thesis.Gpu.Params.{Param, by_value, by_handle, result, text_result, text_arg}

-- cuDeviceGetCount
unfoldable pub device_get_count : List Param
device_get_count = result 4 ∷ []

-- cuDeviceTotalMem
unfoldable pub device_total_mem : List Param
device_total_mem = result 8 ∷ by_value 4 ∷ []

-- cuDeviceGetAttribute
unfoldable pub device_get_attribute : List Param
device_get_attribute = result 4 ∷ by_value 4 ∷ by_value 4 ∷ []

-- cuDriverGetVersion
unfoldable pub driver_get_version : List Param
driver_get_version = result 4 ∷ []

-- cuDeviceGetUuid
unfoldable pub device_get_uuid : List Param
device_get_uuid = result 16 ∷ by_value 4 ∷ []

-- cuDevicePrimaryCtxRetain
unfoldable pub device_primary_ctx_retain : List Param
device_primary_ctx_retain = result 8 ∷ by_value 4 ∷ []

-- cuCtxGetCurrent
unfoldable pub ctx_get_current : List Param
ctx_get_current = result 8 ∷ []

-- cuCtxGetDevice
unfoldable pub ctx_get_device : List Param
ctx_get_device = result 4 ∷ []

-- cuCtxGetStreamPriorityRange
unfoldable pub ctx_get_stream_priority_range : List Param
ctx_get_stream_priority_range = result 4 ∷ result 4 ∷ []

-- cuCtxPopCurrent
unfoldable pub ctx_pop_current : List Param
ctx_pop_current = result 8 ∷ []

-- cuModuleGetLoadingMode
unfoldable pub module_get_loading_mode : List Param
module_get_loading_mode = result 4 ∷ []

-- cuLibraryGetModule
unfoldable pub library_get_module : List Param
library_get_module = result 8 ∷ by_handle ∷ []

-- cuEventCreate
unfoldable pub event_create : List Param
event_create = result 8 ∷ by_value 4 ∷ []

-- cuStreamCreate
unfoldable pub stream_create : List Param
stream_create = result 8 ∷ by_value 4 ∷ []

-- cuDeviceGetName
unfoldable pub device_get_name : List Param
device_get_name = text_result ∷ by_value 4 ∷ by_value 4 ∷ []

-- cuModuleGetGlobal
unfoldable pub module_get_global : List Param
module_get_global = result 8 ∷ result 8 ∷ by_handle ∷ text_arg ∷ []

-- cuOccupancyMaxActiveBlocksPerMultiprocessorWithFlags
unfoldable pub occupancy_max_active_blocks : List Param
occupancy_max_active_blocks = result 4 ∷ by_handle ∷ by_value 4 ∷ by_value 8 ∷ by_value 4 ∷ []

-- ADD_SYMBOL
unfoldable pub func_map : List (String × List Param)
func_map =
    ("cuInit", by_value 4 ∷ [])
    ∷ ("cuDevicePrimaryCtxRelease", by_value 4 ∷ [])
    ∷ ("cuCtxSetCurrent", by_handle ∷ [])
    ∷ ("cuCtxPushCurrent", by_handle ∷ [])
    ∷ ("cuLibraryUnload", by_handle ∷ [])
    ∷ ("cuMemsetD8Async", by_value 8 ∷ by_value 1 ∷ by_value 8 ∷ by_handle ∷ [])
    ∷ ("cuEventRecord", by_handle ∷ by_handle ∷ [])
    ∷ ("cuStreamSynchronize", by_handle ∷ [])
    ∷ ("cuCtxDestroy", by_handle ∷ [])
    ∷ ("cuMemFree", by_value 8 ∷ [])
    ∷ ("cuModuleUnload", by_handle ∷ [])
    ∷ []
