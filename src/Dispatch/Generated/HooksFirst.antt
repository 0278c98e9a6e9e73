-- ===== src/Dispatch/Generated/HooksFirst.antt =====
-- util/generated_hooks.cpp: the CU_HOOK_DRIVER_FUNC lines, (name, symbol), the first half.
use Prim.Native.String.{String}
use fan_master_thesis.Base.{List, [], ◌∷◌}

unfoldable pub generated_hooks_1 : List (String × String)
generated_hooks_1 =
    ("cuInit_intercepted", "cuInit")
    ∷ ("cuDeviceGet_intercepted", "cuDeviceGet")
    ∷ ("cuDeviceGetCount_intercepted", "cuDeviceGetCount")
    ∷ ("cuDeviceGetName_intercepted", "cuDeviceGetName")
    ∷ ("cuDeviceTotalMem_intercepted", "cuDeviceTotalMem")
    ∷ ("cuDeviceGetAttribute_intercepted", "cuDeviceGetAttribute")
    ∷ ("cuDeviceGetP2PAttribute_intercepted", "cuDeviceGetP2PAttribute")
    ∷ ("cuDriverGetVersion_intercepted", "cuDriverGetVersion")
    ∷ ("cuDeviceGetByPCIBusId_intercepted", "cuDeviceGetByPCIBusId")
    ∷ ("cuDeviceGetPCIBusId_intercepted", "cuDeviceGetPCIBusId")
    ∷ ("cuDeviceGetUuid_intercepted", "cuDeviceGetUuid")
    ∷ ("cuDeviceGetTexture1DLinearMaxWidth_intercepted", "cuDeviceGetTexture1DLinearMaxWidth")
    ∷ ("cuDeviceGetDefaultMemPool_intercepted", "cuDeviceGetDefaultMemPool")
    ∷ ("cuDeviceSetMemPool_intercepted", "cuDeviceSetMemPool")
    ∷ ("cuDeviceGetMemPool_intercepted", "cuDeviceGetMemPool")
    ∷ ("cuFlushGPUDirectRDMAWrites_intercepted", "cuFlushGPUDirectRDMAWrites")
    ∷ ("cuDevicePrimaryCtxRetain_intercepted", "cuDevicePrimaryCtxRetain")
    ∷ ("cuDevicePrimaryCtxRelease_intercepted", "cuDevicePrimaryCtxRelease")
    ∷ ("cuDevicePrimaryCtxSetFlags_intercepted", "cuDevicePrimaryCtxSetFlags")
    ∷ ("cuDevicePrimaryCtxGetState_intercepted", "cuDevicePrimaryCtxGetState")
    ∷ ("cuDevicePrimaryCtxReset_intercepted", "cuDevicePrimaryCtxReset")
    ∷ ("cuCtxCreate_intercepted", "cuCtxCreate")
    ∷ ("cuCtxGetFlags_intercepted", "cuCtxGetFlags")
    ∷ ("cuCtxSetCurrent_intercepted", "cuCtxSetCurrent")
    ∷ ("cuCtxGetCurrent_intercepted", "cuCtxGetCurrent")
    ∷ ("cuCtxDetach_intercepted", "cuCtxDetach")
    ∷ ("cuCtxGetApiVersion_intercepted", "cuCtxGetApiVersion")
    ∷ ("cuCtxGetDevice_intercepted", "cuCtxGetDevice")
    ∷ ("cuCtxGetLimit_intercepted", "cuCtxGetLimit")
    ∷ ("cuCtxSetLimit_intercepted", "cuCtxSetLimit")
    ∷ ("cuCtxGetCacheConfig_intercepted", "cuCtxGetCacheConfig")
    ∷ ("cuCtxSetCacheConfig_intercepted", "cuCtxSetCacheConfig")
    ∷ ("cuCtxGetSharedMemConfig_intercepted", "cuCtxGetSharedMemConfig")
    ∷ ("cuCtxGetStreamPriorityRange_intercepted", "cuCtxGetStreamPriorityRange")
    ∷ ("cuCtxSetSharedMemConfig_intercepted", "cuCtxSetSharedMemConfig")
    ∷ ("cuCtxSynchronize_intercepted", "cuCtxSynchronize")
    ∷ ("cuCtxResetPersistingL2Cache_intercepted", "cuCtxResetPersistingL2Cache")
    ∷ ("cuCtxPopCurrent_intercepted", "cuCtxPopCurrent")
    ∷ ("cuCtxPushCurrent_intercepted", "cuCtxPushCurrent")
    ∷ ("cuModuleLoad_intercepted", "cuModuleLoad")
    ∷ ("cuModuleLoadData_intercepted", "cuModuleLoadData")
    ∷ ("cuModuleLoadFatBinary_intercepted", "cuModuleLoadFatBinary")
    ∷ ("cuModuleUnload_intercepted", "cuModuleUnload")
    ∷ ("cuModuleGetFunction_intercepted", "cuModuleGetFunction")
    ∷ ("cuModuleGetGlobal_intercepted", "cuModuleGetGlobal")
    ∷ ("cuModuleGetTexRef_intercepted", "cuModuleGetTexRef")
    ∷ ("cuModuleGetSurfRef_intercepted", "cuModuleGetSurfRef")
    ∷ ("cuModuleGetLoadingMode_intercepted", "cuModuleGetLoadingMode")
    ∷ ("cuLibraryUnload_intercepted", "cuLibraryUnload")
    ∷ ("cuLibraryGetKernel_intercepted", "cuLibraryGetKernel")
    ∷ ("cuLibraryGetModule_intercepted", "cuLibraryGetModule")
    ∷ ("cuKernelGetFunction_intercepted", "cuKernelGetFunction")
    ∷ ("cuLibraryGetGlobal_intercepted", "cuLibraryGetGlobal")
    ∷ ("cuLibraryGetManaged_intercepted", "cuLibraryGetManaged")
    ∷ ("cuLibraryGetUnifiedFunction_intercepted", "cuLibraryGetUnifiedFunction")
    ∷ ("cuLibraryGetKernelCount_intercepted", "cuLibraryGetKernelCount")
    ∷ ("cuLibraryEnumerateKernels_intercepted", "cuLibraryEnumerateKernels")
    ∷ ("cuKernelGetAttribute_intercepted", "cuKernelGetAttribute")
    ∷ ("cuKernelSetAttribute_intercepted", "cuKernelSetAttribute")
    ∷ ("cuKernelSetCacheConfig_intercepted", "cuKernelSetCacheConfig")
    ∷ ("cuKernelGetName_intercepted", "cuKernelGetName")
    ∷ ("cuKernelGetParamInfo_intercepted", "cuKernelGetParamInfo")
    ∷ ("cuLinkCreate_intercepted", "cuLinkCreate")
    ∷ ("cuMemGetInfo_intercepted", "cuMemGetInfo")
    ∷ ("cuMemAllocManaged_intercepted", "cuMemAllocManaged")
    ∷ ("cuMemAlloc_intercepted", "cuMemAlloc")
    ∷ ("cuMemAllocPitch_intercepted", "cuMemAllocPitch")
    ∷ ("cuMemFree_intercepted", "cuMemFree")
    ∷ ("cuMemGetAddressRange_intercepted", "cuMemGetAddressRange")
    ∷ ("cuMemFreeHost_intercepted", "cuMemFreeHost")
    ∷ ("cuMemHostAlloc_intercepted", "cuMemHostAlloc")
    ∷ ("cuMemHostGetDevicePointer_intercepted", "cuMemHostGetDevicePointer")
    ∷ []

unfoldable pub generated_hooks_2 : List (String × String)
generated_hooks_2 =
    ("cuMemHostGetFlags_intercepted", "cuMemHostGetFlags")
    ∷ ("cuMemHostRegister_intercepted", "cuMemHostRegister")
    ∷ ("cuMemHostUnregister_intercepted", "cuMemHostUnregister")
    ∷ ("cuPointerGetAttribute_intercepted", "cuPointerGetAttribute")
    ∷ ("cuPointerGetAttributes_intercepted", "cuPointerGetAttributes")
    ∷ ("cuMemAllocAsync_intercepted", "cuMemAllocAsync")
    ∷ ("cuMemAllocFromPoolAsync_intercepted", "cuMemAllocFromPoolAsync")
    ∷ ("cuMemFreeAsync_intercepted", "cuMemFreeAsync")
    ∷ ("cuMemPoolTrimTo_intercepted", "cuMemPoolTrimTo")
    ∷ ("cuMemPoolSetAttribute_intercepted", "cuMemPoolSetAttribute")
    ∷ ("cuMemPoolGetAttribute_intercepted", "cuMemPoolGetAttribute")
    ∷ ("cuMemPoolSetAccess_intercepted", "cuMemPoolSetAccess")
    ∷ ("cuMemPoolGetAccess_intercepted", "cuMemPoolGetAccess")
    ∷ ("cuMemPoolCreate_intercepted", "cuMemPoolCreate")
    ∷ ("cuMemPoolDestroy_intercepted", "cuMemPoolDestroy")
    ∷ ("cuMemPoolExportToShareableHandle_intercepted", "cuMemPoolExportToShareableHandle")
    ∷ ("cuMemPoolExportPointer_intercepted", "cuMemPoolExportPointer")
    ∷ ("cuMemPoolImportPointer_intercepted", "cuMemPoolImportPointer")
    ∷ ("cuMemcpy_intercepted", "cuMemcpy")
    ∷ ("cuMemcpyAsync_intercepted", "cuMemcpyAsync")
    ∷ ("cuMemcpyPeer_intercepted", "cuMemcpyPeer")
    ∷ ("cuMemcpyPeerAsync_intercepted", "cuMemcpyPeerAsync")
    ∷ ("cuMemcpyHtoD_intercepted", "cuMemcpyHtoD")
    ∷ ("cuMemcpyHtoDAsync_intercepted", "cuMemcpyHtoDAsync")
    ∷ ("cuMemcpyDtoH_intercepted", "cuMemcpyDtoH")
    ∷ ("cuMemcpyDtoHAsync_intercepted", "cuMemcpyDtoHAsync")
    ∷ ("cuMemcpyDtoD_intercepted", "cuMemcpyDtoD")
    ∷ ("cuMemcpyDtoDAsync_intercepted", "cuMemcpyDtoDAsync")
    ∷ ("cuMemcpy2DUnaligned_intercepted", "cuMemcpy2DUnaligned")
    ∷ ("cuMemcpy2DAsync_intercepted", "cuMemcpy2DAsync")
    ∷ ("cuMemcpy3D_intercepted", "cuMemcpy3D")
    ∷ ("cuMemcpy3DAsync_intercepted", "cuMemcpy3DAsync")
    ∷ ("cuMemcpy3DPeer_intercepted", "cuMemcpy3DPeer")
    ∷ ("cuMemcpy3DPeerAsync_intercepted", "cuMemcpy3DPeerAsync")
    ∷ ("cuMemsetD8_intercepted", "cuMemsetD8")
    ∷ ("cuMemsetD8Async_intercepted", "cuMemsetD8Async")
    ∷ ("cuMemsetD2D8_intercepted", "cuMemsetD2D8")
    ∷ ("cuMemsetD2D8Async_intercepted", "cuMemsetD2D8Async")
    ∷ ("cuFuncSetCacheConfig_intercepted", "cuFuncSetCacheConfig")
    ∷ ("cuFuncSetSharedMemConfig_intercepted", "cuFuncSetSharedMemConfig")
    ∷ ("cuFuncGetAttribute_intercepted", "cuFuncGetAttribute")
    ∷ ("cuFuncSetAttribute_intercepted", "cuFuncSetAttribute")
    ∷ ("cuFuncGetName_intercepted", "cuFuncGetName")
    ∷ ("cuFuncGetParamInfo_intercepted", "cuFuncGetParamInfo")
    ∷ ("cuArrayCreate_intercepted", "cuArrayCreate")
    ∷ ("cuArrayGetDescriptor_intercepted", "cuArrayGetDescriptor")
    ∷ ("cuArrayGetSparseProperties_intercepted", "cuArrayGetSparseProperties")
    ∷ ("cuArrayGetPlane_intercepted", "cuArrayGetPlane")
    ∷ ("cuArray3DCreate_intercepted", "cuArray3DCreate")
    ∷ ("cuArray3DGetDescriptor_intercepted", "cuArray3DGetDescriptor")
    ∷ ("cuArrayDestroy_intercepted", "cuArrayDestroy")
    ∷ ("cuMipmappedArrayCreate_intercepted", "cuMipmappedArrayCreate")
    ∷ ("cuMipmappedArrayGetLevel_intercepted", "cuMipmappedArrayGetLevel")
    ∷ ("cuMipmappedArrayGetSparseProperties_intercepted", "cuMipmappedArrayGetSparseProperties")
    ∷ ("cuMipmappedArrayDestroy_intercepted", "cuMipmappedArrayDestroy")
    ∷ ("cuArrayGetMemoryRequirements_intercepted", "cuArrayGetMemoryRequirements")
    ∷ ("cuMipmappedArrayGetMemoryRequirements_intercepted", "cuMipmappedArrayGetMemoryRequirements")
    ∷ ("cuTexObjectCreate_intercepted", "cuTexObjectCreate")
    ∷ ("cuTexObjectDestroy_intercepted", "cuTexObjectDestroy")
    ∷ ("cuTexObjectGetResourceDesc_intercepted", "cuTexObjectGetResourceDesc")
    ∷ ("cuTexObjectGetTextureDesc_intercepted", "cuTexObjectGetTextureDesc")
    ∷ ("cuTexObjectGetResourceViewDesc_intercepted", "cuTexObjectGetResourceViewDesc")
    ∷ ("cuSurfObjectCreate_intercepted", "cuSurfObjectCreate")
    ∷ ("cuSurfObjectDestroy_intercepted", "cuSurfObjectDestroy")
    ∷ ("cuSurfObjectGetResourceDesc_intercepted", "cuSurfObjectGetResourceDesc")
    ∷ ("cuImportExternalMemory_intercepted", "cuImportExternalMemory")
    ∷ ("cuExternalMemoryGetMappedBuffer_intercepted", "cuExternalMemoryGetMappedBuffer")
    ∷ (
      "cuExternalMemoryGetMappedMipmappedArray_intercepted",
      "cuExternalMemoryGetMappedMipmappedArray",
    )
    ∷ ("cuDestroyExternalMemory_intercepted", "cuDestroyExternalMemory")
    ∷ ("cuImportExternalSemaphore_intercepted", "cuImportExternalSemaphore")
    ∷ ("cuSignalExternalSemaphoresAsync_intercepted", "cuSignalExternalSemaphoresAsync")
    ∷ ("cuWaitExternalSemaphoresAsync_intercepted", "cuWaitExternalSemaphoresAsync")
    ∷ []
