-- ===== src/Dispatch/DlsymFirst.antt =====
-- interception/interception.cpp: the TRY_DLSYM lines of `dlsym`, (text, target), the first part.
use Prim.Native.String.{String}
use fan_master_thesis.Base.{List, [], ◌∷◌}

unfoldable pub dlsym_rows_1 : List (String × String)
dlsym_rows_1 =
    ("cuGetProcAddress", "getProcAddressBySymbol")
    ∷ ("cuInit", "cuInit")
    ∷ ("cuDeviceGet", "cuDeviceGet")
    ∷ ("cuDeviceGetCount", "cuDeviceGetCount")
    ∷ ("cuDeviceGetName", "cuDeviceGetName")
    ∷ ("cuDeviceTotalMem", "cuDeviceTotalMem_v2")
    ∷ ("cuDeviceGetAttribute", "cuDeviceGetAttribute")
    ∷ ("cuDeviceGetP2PAttribute", "cuDeviceGetP2PAttribute_intercepted")
    ∷ ("cuDriverGetVersion", "cuDriverGetVersion")
    ∷ ("cuDeviceGetByPCIBusId", "cuDeviceGetByPCIBusId_intercepted")
    ∷ ("cuDeviceGetPCIBusId", "cuDeviceGetPCIBusId_intercepted")
    ∷ ("cuDeviceGetUuid", "cuDeviceGetUuid")
    ∷ ("cuDeviceGetTexture1DLinearMaxWidth", "cuDeviceGetTexture1DLinearMaxWidth_intercepted")
    ∷ ("cuDeviceGetDefaultMemPool", "cuDeviceGetDefaultMemPool_intercepted")
    ∷ ("cuDeviceSetMemPool", "cuDeviceSetMemPool_intercepted")
    ∷ ("cuDeviceGetMemPool", "cuDeviceGetMemPool_intercepted")
    ∷ ("cuFlushGPUDirectRDMAWrites", "cuFlushGPUDirectRDMAWrites_intercepted")
    ∷ ("cuDevicePrimaryCtxRetain", "cuDevicePrimaryCtxRetain")
    ∷ ("cuDevicePrimaryCtxRelease", "cuDevicePrimaryCtxRelease")
    ∷ ("cuDevicePrimaryCtxSetFlags", "cuDevicePrimaryCtxSetFlags_intercepted")
    ∷ ("cuDevicePrimaryCtxGetState", "cuDevicePrimaryCtxGetState_intercepted")
    ∷ ("cuDevicePrimaryCtxReset", "cuDevicePrimaryCtxReset_intercepted")
    ∷ ("cuCtxCreate", "cuCtxCreate")
    ∷ ("cuCtxGetFlags", "cuCtxGetFlags_intercepted")
    ∷ ("cuCtxSetCurrent", "cuCtxSetCurrent")
    ∷ ("cuCtxGetCurrent", "cuCtxGetCurrent")
    ∷ ("cuCtxDetach", "cuCtxDetach_intercepted")
    ∷ ("cuCtxGetApiVersion", "cuCtxGetApiVersion_intercepted")
    ∷ ("cuCtxGetDevice", "cuCtxGetDevice")
    ∷ ("cuCtxGetLimit", "cuCtxGetLimit_intercepted")
    ∷ ("cuCtxSetLimit", "cuCtxSetLimit_intercepted")
    ∷ ("cuCtxGetCacheConfig", "cuCtxGetCacheConfig_intercepted")
    ∷ ("cuCtxSetCacheConfig", "cuCtxSetCacheConfig_intercepted")
    ∷ ("cuCtxGetSharedMemConfig", "cuCtxGetSharedMemConfig_intercepted")
    ∷ ("cuCtxGetStreamPriorityRange", "cuCtxGetStreamPriorityRange")
    ∷ ("cuCtxSetSharedMemConfig", "cuCtxSetSharedMemConfig_intercepted")
    ∷ ("cuCtxSynchronize", "cuCtxSynchronize_intercepted")
    ∷ ("cuCtxResetPersistingL2Cache", "cuCtxResetPersistingL2Cache_intercepted")
    ∷ ("cuCtxPopCurrent", "cuCtxPopCurrent")
    ∷ ("cuCtxPushCurrent", "cuCtxPushCurrent")
    ∷ ("cuModuleLoad", "cuModuleLoad")
    ∷ ("cuModuleLoadData", "cuModuleLoadData")
    ∷ ("cuModuleLoadFatBinary", "cuModuleLoadFatBinary_intercepted")
    ∷ ("cuModuleUnload", "cuModuleUnload")
    ∷ ("cuModuleGetFunction", "cuModuleGetFunction")
    ∷ ("cuModuleGetGlobal", "cuModuleGetGlobal")
    ∷ ("cuModuleGetTexRef", "cuModuleGetTexRef_intercepted")
    ∷ ("cuModuleGetSurfRef", "cuModuleGetSurfRef_intercepted")
    ∷ ("cuModuleGetLoadingMode", "cuModuleGetLoadingMode")
    ∷ ("cuLibraryUnload", "cuLibraryUnload")
    ∷ ("cuLibraryGetKernel", "cuLibraryGetKernel_intercepted")
    ∷ ("cuLibraryGetModule", "cuLibraryGetModule")
    ∷ ("cuKernelGetFunction", "cuKernelGetFunction_intercepted")
    ∷ ("cuLibraryGetGlobal", "cuLibraryGetGlobal_intercepted")
    ∷ ("cuLibraryGetManaged", "cuLibraryGetManaged_intercepted")
    ∷ ("cuLibraryGetUnifiedFunction", "cuLibraryGetUnifiedFunction_intercepted")
    ∷ ("cuLibraryGetKernelCount", "cuLibraryGetKernelCount_intercepted")
    ∷ ("cuLibraryEnumerateKernels", "cuLibraryEnumerateKernels_intercepted")
    ∷ ("cuKernelGetAttribute", "cuKernelGetAttribute_intercepted")
    ∷ ("cuKernelSetAttribute", "cuKernelSetAttribute_intercepted")
    ∷ ("cuKernelSetCacheConfig", "cuKernelSetCacheConfig_intercepted")
    ∷ ("cuKernelGetName", "cuKernelGetName_intercepted")
    ∷ ("cuKernelGetParamInfo", "cuKernelGetParamInfo_intercepted")
    ∷ ("cuLinkCreate", "cuLinkCreate_intercepted")
    ∷ ("cuMemGetInfo", "cuMemGetInfo_intercepted")
    ∷ ("cuMemAllocManaged", "cuMemAllocManaged_intercepted")
    ∷ ("cuMemAlloc", "cuMemAlloc")
    ∷ ("cuMemAllocPitch", "cuMemAllocPitch_intercepted")
    ∷ ("cuMemFree", "cuMemFree")
    ∷ ("cuMemGetAddressRange", "cuMemGetAddressRange_intercepted")
    ∷ ("cuMemFreeHost", "cuMemFreeHost_intercepted")
    ∷ ("cuMemHostAlloc", "cuMemHostAlloc")
    ∷ ("cuMemHostGetDevicePointer", "cuMemHostGetDevicePointer")
    ∷ ("cuMemHostGetFlags", "cuMemHostGetFlags_intercepted")
    ∷ ("cuMemHostRegister", "cuMemHostRegister_intercepted")
    ∷ ("cuMemHostUnregister", "cuMemHostUnregister_intercepted")
    ∷ []

unfoldable pub dlsym_rows_2 : List (String × String)
dlsym_rows_2 =
    ("cuPointerGetAttribute", "cuPointerGetAttribute_intercepted")
    ∷ ("cuPointerGetAttributes", "cuPointerGetAttributes_intercepted")
    ∷ ("cuMemAllocAsync", "cuMemAllocAsync_intercepted")
    ∷ ("cuMemAllocFromPoolAsync", "cuMemAllocFromPoolAsync_intercepted")
    ∷ ("cuMemFreeAsync", "cuMemFreeAsync_intercepted")
    ∷ ("cuMemPoolTrimTo", "cuMemPoolTrimTo_intercepted")
    ∷ ("cuMemPoolSetAttribute", "cuMemPoolSetAttribute_intercepted")
    ∷ ("cuMemPoolGetAttribute", "cuMemPoolGetAttribute_intercepted")
    ∷ ("cuMemPoolSetAccess", "cuMemPoolSetAccess_intercepted")
    ∷ ("cuMemPoolGetAccess", "cuMemPoolGetAccess_intercepted")
    ∷ ("cuMemPoolCreate", "cuMemPoolCreate_intercepted")
    ∷ ("cuMemPoolDestroy", "cuMemPoolDestroy_intercepted")
    ∷ ("cuMemPoolExportToShareableHandle", "cuMemPoolExportToShareableHandle_intercepted")
    ∷ ("cuMemPoolExportPointer", "cuMemPoolExportPointer_intercepted")
    ∷ ("cuMemPoolImportPointer", "cuMemPoolImportPointer_intercepted")
    ∷ ("cuMemcpy", "cuMemcpy_intercepted")
    ∷ ("cuMemcpyAsync", "cuMemcpyAsync_intercepted")
    ∷ ("cuMemcpyPeer", "cuMemcpyPeer_intercepted")
    ∷ ("cuMemcpyPeerAsync", "cuMemcpyPeerAsync_intercepted")
    ∷ ("cuMemcpyHtoD", "cuMemcpyHtoD")
    ∷ ("cuMemcpyDtoH", "cuMemcpyDtoH")
    ∷ ("cuMemcpyDtoHAsync", "cuMemcpyDtoHAsync_intercepted")
    ∷ ("cuMemcpyDtoD", "cuMemcpyDtoD_intercepted")
    ∷ ("cuMemcpyDtoDAsync", "cuMemcpyDtoDAsync_intercepted")
    ∷ ("cuMemcpy2DUnaligned", "cuMemcpy2DUnaligned_intercepted")
    ∷ ("cuMemcpy2DAsync", "cuMemcpy2DAsync_intercepted")
    ∷ ("cuMemcpy3D", "cuMemcpy3D_intercepted")
    ∷ ("cuMemcpy3DAsync", "cuMemcpy3DAsync_intercepted")
    ∷ ("cuMemcpy3DPeer", "cuMemcpy3DPeer_intercepted")
    ∷ ("cuMemcpy3DPeerAsync", "cuMemcpy3DPeerAsync_intercepted")
    ∷ ("cuMemsetD8", "cuMemsetD8_intercepted")
    ∷ ("cuMemsetD8Async", "cuMemsetD8Async")
    ∷ ("cuMemsetD2D8", "cuMemsetD2D8_intercepted")
    ∷ ("cuMemsetD2D8Async", "cuMemsetD2D8Async_intercepted")
    ∷ ("cuFuncSetCacheConfig", "cuFuncSetCacheConfig_intercepted")
    ∷ ("cuFuncSetSharedMemConfig", "cuFuncSetSharedMemConfig_intercepted")
    ∷ ("cuFuncGetAttribute", "cuFuncGetAttribute_intercepted")
    ∷ ("cuFuncSetAttribute", "cuFuncSetAttribute_intercepted")
    ∷ ("cuFuncGetName", "cuFuncGetName_intercepted")
    ∷ ("cuFuncGetParamInfo", "cuFuncGetParamInfo_intercepted")
    ∷ ("cuArrayCreate", "cuArrayCreate_intercepted")
    ∷ ("cuArrayGetDescriptor", "cuArrayGetDescriptor_intercepted")
    ∷ ("cuArrayGetSparseProperties", "cuArrayGetSparseProperties_intercepted")
    ∷ ("cuArrayGetPlane", "cuArrayGetPlane_intercepted")
    ∷ ("cuArray3DCreate", "cuArray3DCreate_intercepted")
    ∷ ("cuArray3DGetDescriptor", "cuArray3DGetDescriptor_intercepted")
    ∷ ("cuArrayDestroy", "cuArrayDestroy_intercepted")
    ∷ ("cuMipmappedArrayCreate", "cuMipmappedArrayCreate_intercepted")
    ∷ ("cuMipmappedArrayGetLevel", "cuMipmappedArrayGetLevel_intercepted")
    ∷ ("cuMipmappedArrayGetSparseProperties", "cuMipmappedArrayGetSparseProperties_intercepted")
    ∷ ("cuMipmappedArrayDestroy", "cuMipmappedArrayDestroy_intercepted")
    ∷ ("cuArrayGetMemoryRequirements", "cuArrayGetMemoryRequirements_intercepted")
    ∷ ("cuMipmappedArrayGetMemoryRequirements", "cuMipmappedArrayGetMemoryRequirements_intercepted")
    ∷ ("cuTexObjectCreate", "cuTexObjectCreate_intercepted")
    ∷ ("cuTexObjectDestroy", "cuTexObjectDestroy_intercepted")
    ∷ ("cuTexObjectGetResourceDesc", "cuTexObjectGetResourceDesc_intercepted")
    ∷ ("cuTexObjectGetTextureDesc", "cuTexObjectGetTextureDesc_intercepted")
    ∷ ("cuTexObjectGetResourceViewDesc", "cuTexObjectGetResourceViewDesc_intercepted")
    ∷ ("cuSurfObjectCreate", "cuSurfObjectCreate_intercepted")
    ∷ ("cuSurfObjectDestroy", "cuSurfObjectDestroy_intercepted")
    ∷ ("cuSurfObjectGetResourceDesc", "cuSurfObjectGetResourceDesc_intercepted")
    ∷ ("cuImportExternalMemory", "cuImportExternalMemory_intercepted")
    ∷ ("cuExternalMemoryGetMappedBuffer", "cuExternalMemoryGetMappedBuffer_intercepted")
    ∷ (
      "cuExternalMemoryGetMappedMipmappedArray",
      "cuExternalMemoryGetMappedMipmappedArray_intercepted",
    )
    ∷ ("cuDestroyExternalMemory", "cuDestroyExternalMemory_intercepted")
    ∷ ("cuImportExternalSemaphore", "cuImportExternalSemaphore_intercepted")
    ∷ ("cuSignalExternalSemaphoresAsync", "cuSignalExternalSemaphoresAsync_intercepted")
    ∷ ("cuWaitExternalSemaphoresAsync", "cuWaitExternalSemaphoresAsync_intercepted")
    ∷ ("cuDestroyExternalSemaphore", "cuDestroyExternalSemaphore_intercepted")
    ∷ ("cuDeviceGetNvSciSyncAttributes", "cuDeviceGetNvSciSyncAttributes_intercepted")
    ∷ ("cuLaunchKernel", "cuLaunchKernel")
    ∷ ("cuLaunchCooperativeKernel", "cuLaunchCooperativeKernel_intercepted")
    ∷ ("cuLaunchCooperativeKernelMultiDevice", "cuLaunchCooperativeKernelMultiDevice_intercepted")
    ∷ ("cuLaunchHostFunc", "cuLaunchHostFunc_intercepted")
    ∷ []
