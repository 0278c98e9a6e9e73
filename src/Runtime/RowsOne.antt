-- ===== src/Runtime/RowsOne.antt =====
-- interception/interception_runtime.c: INTERCEPT_RT, part one of the lines: the function, the names of
-- its parameters, and the arguments that it passes on.
use Prim.Native.String.{String}
use fan_master_thesis.Base.{List, [], ◌∷◌}

unfoldable pub runtime_rows_1 : List (String × List String × List String)
runtime_rows_1 =
    ("cudaDeviceReset", [], [])
    ∷ ("cudaDeviceSynchronize", [], [])
    ∷ ("cudaDeviceSetLimit", "limit" ∷ "value" ∷ [], "limit" ∷ "value" ∷ [])
    ∷ ("cudaDeviceGetLimit", "pValue" ∷ "limit" ∷ [], "pValue" ∷ "limit" ∷ [])
    ∷ (
      "cudaDeviceGetTexture1DLinearMaxWidth",
      "maxWidthInElements" ∷ "fmtDesc" ∷ "device" ∷ [],
      "maxWidthInElements" ∷ "fmtDesc" ∷ "device" ∷ [],
    )
    ∷ ("cudaDeviceGetCacheConfig", "pCacheConfig" ∷ [], "pCacheConfig" ∷ [])
    ∷ (
      "cudaDeviceGetStreamPriorityRange",
      "leastPriority" ∷ "greatestPriority" ∷ [],
      "leastPriority" ∷ "greatestPriority" ∷ [],
    )
    ∷ ("cudaDeviceSetCacheConfig", "cacheConfig" ∷ [], "cacheConfig" ∷ [])
    ∷ ("cudaDeviceGetByPCIBusId", "device" ∷ "pciBusId" ∷ [], "device" ∷ "pciBusId" ∷ [])
    ∷ (
      "cudaDeviceGetPCIBusId",
      "pciBusId" ∷ "len" ∷ "device" ∷ [],
      "pciBusId" ∷ "len" ∷ "device" ∷ [],
    )
    ∷ ("cudaIpcGetEventHandle", "handle" ∷ "event" ∷ [], "handle" ∷ "event" ∷ [])
    ∷ ("cudaIpcOpenEventHandle", "event" ∷ "handle" ∷ [], "event" ∷ "handle" ∷ [])
    ∷ ("cudaIpcGetMemHandle", "handle" ∷ "devPtr" ∷ [], "handle" ∷ "devPtr" ∷ [])
    ∷ (
      "cudaIpcOpenMemHandle",
      "devPtr" ∷ "handle" ∷ "flags" ∷ [],
      "devPtr" ∷ "handle" ∷ "flags" ∷ [],
    )
    ∷ ("cudaIpcCloseMemHandle", "devPtr" ∷ [], "devPtr" ∷ [])
    ∷ ("cudaDeviceFlushGPUDirectRDMAWrites", "target" ∷ "scope" ∷ [], "target" ∷ "scope" ∷ [])
    ∷ (
      "cudaDeviceRegisterAsyncNotification",
      "device" ∷ "callbackFunc" ∷ "userData" ∷ "callback" ∷ [],
      "device" ∷ "callbackFunc" ∷ "userData" ∷ "callback" ∷ [],
    )
    ∷ (
      "cudaDeviceUnregisterAsyncNotification",
      "device" ∷ "callback" ∷ [],
      "device" ∷ "callback" ∷ [],
    )
    ∷ ("cudaGetLastError", [], [])
    ∷ ("cudaPeekAtLastError", [], [])
    ∷ ("cudaGetDeviceCount", "count" ∷ [], "count" ∷ [])
    ∷ ("cudaGetDeviceProperties", "prop" ∷ "device" ∷ [], "prop" ∷ "device" ∷ [])
    ∷ ("cudaDeviceGetAttribute", "value" ∷ "attr" ∷ "device" ∷ [], "value" ∷ "attr" ∷ "device" ∷ [])
    ∷ ("cudaDeviceGetDefaultMemPool", "memPool" ∷ "device" ∷ [], "memPool" ∷ "device" ∷ [])
    ∷ ("cudaDeviceSetMemPool", "device" ∷ "memPool" ∷ [], "device" ∷ "memPool" ∷ [])
    ∷ ("cudaDeviceGetMemPool", "memPool" ∷ "device" ∷ [], "memPool" ∷ "device" ∷ [])
    ∷ (
      "cudaDeviceGetNvSciSyncAttributes",
      "nvSciSyncAttrList" ∷ "device" ∷ "flags" ∷ [],
      "nvSciSyncAttrList" ∷ "device" ∷ "flags" ∷ [],
    )
    ∷ (
      "cudaDeviceGetP2PAttribute",
      "value" ∷ "attr" ∷ "srcDevice" ∷ "dstDevice" ∷ [],
      "value" ∷ "attr" ∷ "srcDevice" ∷ "dstDevice" ∷ [],
    )
    ∷ ("cudaChooseDevice", "device" ∷ "prop" ∷ [], "device" ∷ "prop" ∷ [])
    ∷ (
      "cudaInitDevice",
      "device" ∷ "deviceFlags" ∷ "flags" ∷ [],
      "device" ∷ "deviceFlags" ∷ "flags" ∷ [],
    )
    ∷ ("cudaSetDevice", "device" ∷ [], "device" ∷ [])
    ∷ ("cudaGetDevice", "device" ∷ [], "device" ∷ [])
    ∷ ("cudaSetValidDevices", "device_arr" ∷ "len" ∷ [], "device_arr" ∷ "len" ∷ [])
    ∷ ("cudaSetDeviceFlags", "flags" ∷ [], "flags" ∷ [])
    ∷ ("cudaGetDeviceFlags", "flags" ∷ [], "flags" ∷ [])
    ∷ ("cudaStreamCreate", "pStream" ∷ [], "pStream" ∷ [])
    ∷ ("cudaStreamCreateWithFlags", "pStream" ∷ "flags" ∷ [], "pStream" ∷ "flags" ∷ [])
    ∷ (
      "cudaStreamCreateWithPriority",
      "pStream" ∷ "flags" ∷ "priority" ∷ [],
      "pStream" ∷ "flags" ∷ "priority" ∷ [],
    )
    ∷ ("cudaStreamGetPriority", "hStream" ∷ "priority" ∷ [], "hStream" ∷ "priority" ∷ [])
    ∷ ("cudaStreamGetFlags", "hStream" ∷ "flags" ∷ [], "hStream" ∷ "flags" ∷ [])
    ∷ ("cudaStreamGetId", "hStream" ∷ "streamId" ∷ [], "hStream" ∷ "streamId" ∷ [])
    ∷ ("cudaCtxResetPersistingL2Cache", [], [])
    ∷ ("cudaStreamDestroy", "stream" ∷ [], "stream" ∷ [])
    ∷ ("cudaStreamSynchronize", "stream" ∷ [], "stream" ∷ [])
    ∷ ("cudaStreamQuery", "stream" ∷ [], "stream" ∷ [])
    ∷ ("cudaStreamBeginCapture", "stream" ∷ "mode" ∷ [], "stream" ∷ "mode" ∷ [])
    ∷ (
      "cudaStreamBeginCaptureToGraph",
      "stream" ∷ "graph" ∷ "dependencies" ∷ "dependencyData" ∷ "numDependencies" ∷ "mode" ∷ [],
      "stream" ∷ "graph" ∷ "dependencies" ∷ "dependencyData" ∷ "numDependencies" ∷ "mode" ∷ [],
    )
    ∷ ("cudaThreadExchangeStreamCaptureMode", "mode" ∷ [], "mode" ∷ [])
    ∷ ("cudaStreamEndCapture", "stream" ∷ "pGraph" ∷ [], "stream" ∷ "pGraph" ∷ [])
    ∷ ("cudaStreamIsCapturing", "stream" ∷ "pCaptureStatus" ∷ [], "stream" ∷ "pCaptureStatus" ∷ [])
    ∷ ("cudaEventCreate", "event" ∷ [], "event" ∷ [])
    ∷ ("cudaEventCreateWithFlags", "event" ∷ "flags" ∷ [], "event" ∷ "flags" ∷ [])
    ∷ ("cudaEventQuery", "event" ∷ [], "event" ∷ [])
    ∷ ("cudaEventSynchronize", "event" ∷ [], "event" ∷ [])
    ∷ ("cudaEventDestroy", "event" ∷ [], "event" ∷ [])
    ∷ ("cudaEventElapsedTime", "ms" ∷ "start" ∷ "end" ∷ [], "ms" ∷ "start" ∷ "end" ∷ [])
    ∷ (
      "cudaImportExternalMemory",
      "extMem_out" ∷ "memHandleDesc" ∷ [],
      "extMem_out" ∷ "memHandleDesc" ∷ [],
    )
    ∷ (
      "cudaExternalMemoryGetMappedBuffer",
      "devPtr" ∷ "extMem" ∷ "bufferDesc" ∷ [],
      "devPtr" ∷ "extMem" ∷ "bufferDesc" ∷ [],
    )
    ∷ (
      "cudaExternalMemoryGetMappedMipmappedArray",
      "mipmap" ∷ "extMem" ∷ "mipmapDesc" ∷ [],
      "mipmap" ∷ "extMem" ∷ "mipmapDesc" ∷ [],
    )
    ∷ ("cudaDestroyExternalMemory", "extMem" ∷ [], "extMem" ∷ [])
    ∷ (
      "cudaImportExternalSemaphore",
      "extSem_out" ∷ "semHandleDesc" ∷ [],
      "extSem_out" ∷ "semHandleDesc" ∷ [],
    )
    ∷ ("cudaDestroyExternalSemaphore", "extSem" ∷ [], "extSem" ∷ [])
    ∷ []
