-- ===== src/Runtime/RowsTwo.antt =====
-- interception/interception_runtime.c: INTERCEPT_RT, part two of the lines: the function, the names of
-- its parameters, and the arguments that it passes on.
use Prim.Native.String.{String}
use fan_master_thesis.Base.{List, [], ◌∷◌}

unfoldable pub runtime_rows_2 : List (String × List String × List String)
runtime_rows_2 =
    (
      "cudaLaunchKernel",
      "func" ∷ "gridDim" ∷ "blockDim" ∷ "args" ∷ "sharedMem" ∷ "stream" ∷ [],
      "func" ∷ "gridDim" ∷ "blockDim" ∷ "args" ∷ "sharedMem" ∷ "stream" ∷ [],
    )
    ∷ ("cudaLaunchKernelExC", "config" ∷ "func" ∷ "args" ∷ [], "config" ∷ "func" ∷ "args" ∷ [])
    ∷ (
      "cudaLaunchCooperativeKernel",
      "func" ∷ "gridDim" ∷ "blockDim" ∷ "args" ∷ "sharedMem" ∷ "stream" ∷ [],
      "func" ∷ "gridDim" ∷ "blockDim" ∷ "args" ∷ "sharedMem" ∷ "stream" ∷ [],
    )
    ∷ ("cudaFuncSetCacheConfig", "func" ∷ "cacheConfig" ∷ [], "func" ∷ "cacheConfig" ∷ [])
    ∷ ("cudaFuncGetAttributes", "attr" ∷ "func" ∷ [], "attr" ∷ "func" ∷ [])
    ∷ ("cudaFuncSetAttribute", "func" ∷ "attr" ∷ "value" ∷ [], "func" ∷ "attr" ∷ "value" ∷ [])
    ∷ ("cudaFuncGetName", "name" ∷ "func" ∷ [], "name" ∷ "func" ∷ [])
    ∷ (
      "cudaFuncGetParamInfo",
      "func" ∷ "paramIndex" ∷ "paramOffset" ∷ "paramSize" ∷ [],
      "func" ∷ "paramIndex" ∷ "paramOffset" ∷ "paramSize" ∷ [],
    )
    ∷ ("cudaLaunchHostFunc", "stream" ∷ "fn" ∷ "userData" ∷ [], "stream" ∷ "fn" ∷ "userData" ∷ [])
    ∷ (
      "cudaOccupancyMaxActiveBlocksPerMultiprocessor",
      "numBlocks" ∷ "func" ∷ "blockSize" ∷ "dynamicSMemSize" ∷ [],
      "numBlocks" ∷ "func" ∷ "blockSize" ∷ "dynamicSMemSize" ∷ [],
    )
    ∷ (
      "cudaOccupancyAvailableDynamicSMemPerBlock",
      "dynamicSmemSize" ∷ "func" ∷ "numBlocks" ∷ "blockSize" ∷ [],
      "dynamicSmemSize" ∷ "func" ∷ "numBlocks" ∷ "blockSize" ∷ [],
    )
    ∷ (
      "cudaOccupancyMaxActiveBlocksPerMultiprocessorWithFlags",
      "numBlocks" ∷ "func" ∷ "blockSize" ∷ "dynamicSMemSize" ∷ "flags" ∷ [],
      "numBlocks" ∷ "func" ∷ "blockSize" ∷ "dynamicSMemSize" ∷ "flags" ∷ [],
    )
    ∷ (
      "cudaOccupancyMaxPotentialClusterSize",
      "clusterSize" ∷ "func" ∷ "launchConfig" ∷ [],
      "clusterSize" ∷ "func" ∷ "launchConfig" ∷ [],
    )
    ∷ (
      "cudaOccupancyMaxActiveClusters",
      "numClusters" ∷ "func" ∷ "launchConfig" ∷ [],
      "numClusters" ∷ "func" ∷ "launchConfig" ∷ [],
    )
    ∷ ("cudaMallocManaged", "devPtr" ∷ "size" ∷ "flags" ∷ [], "devPtr" ∷ "size" ∷ "flags" ∷ [])
    ∷ ("cudaMalloc", "devPtr" ∷ "size" ∷ [], "devPtr" ∷ "size" ∷ [])
    ∷ ("cudaMallocHost", "ptr" ∷ "size" ∷ [], "ptr" ∷ "size" ∷ [])
    ∷ (
      "cudaMallocPitch",
      "devPtr" ∷ "pitch" ∷ "width" ∷ "height" ∷ [],
      "devPtr" ∷ "pitch" ∷ "width" ∷ "height" ∷ [],
    )
    ∷ ("cudaFree", "devPtr" ∷ [], "devPtr" ∷ [])
    ∷ ("cudaFreeHost", "ptr" ∷ [], "ptr" ∷ [])
    ∷ ("cudaFreeArray", "array" ∷ [], "array" ∷ [])
    ∷ ("cudaFreeMipmappedArray", "mipmappedArray" ∷ [], "mipmappedArray" ∷ [])
    ∷ ("cudaHostAlloc", "pHost" ∷ "size" ∷ "flags" ∷ [], "pHost" ∷ "size" ∷ "flags" ∷ [])
    ∷ ("cudaHostRegister", "ptr" ∷ "size" ∷ "flags" ∷ [], "ptr" ∷ "size" ∷ "flags" ∷ [])
    ∷ ("cudaHostUnregister", "ptr" ∷ [], "ptr" ∷ [])
    ∷ (
      "cudaHostGetDevicePointer",
      "pDevice" ∷ "pHost" ∷ "flags" ∷ [],
      "pDevice" ∷ "pHost" ∷ "flags" ∷ [],
    )
    ∷ ("cudaHostGetFlags", "pFlags" ∷ "pHost" ∷ [], "pFlags" ∷ "pHost" ∷ [])
    ∷ ("cudaMalloc3D", "pitchedDevPtr" ∷ "extent" ∷ [], "pitchedDevPtr" ∷ "extent" ∷ [])
    ∷ (
      "cudaGetMipmappedArrayLevel",
      "levelArray" ∷ "mipmappedArray" ∷ "level" ∷ [],
      "levelArray" ∷ "mipmappedArray" ∷ "level" ∷ [],
    )
    ∷ ("cudaMemcpy3D", "p" ∷ [], "p" ∷ [])
    ∷ ("cudaMemcpy3DPeer", "p" ∷ [], "p" ∷ [])
    ∷ ("cudaMemGetInfo", "free" ∷ "total" ∷ [], "free" ∷ "total" ∷ [])
    ∷ (
      "cudaArrayGetInfo",
      "desc" ∷ "extent" ∷ "flags" ∷ "array" ∷ [],
      "desc" ∷ "extent" ∷ "flags" ∷ "array" ∷ [],
    )
    ∷ (
      "cudaArrayGetPlane",
      "pPlaneArray" ∷ "hArray" ∷ "planeIdx" ∷ [],
      "pPlaneArray" ∷ "hArray" ∷ "planeIdx" ∷ [],
    )
    ∷ (
      "cudaArrayGetMemoryRequirements",
      "memoryRequirements" ∷ "array" ∷ "device" ∷ [],
      "memoryRequirements" ∷ "array" ∷ "device" ∷ [],
    )
    ∷ (
      "cudaMipmappedArrayGetMemoryRequirements",
      "memoryRequirements" ∷ "mipmap" ∷ "device" ∷ [],
      "memoryRequirements" ∷ "mipmap" ∷ "device" ∷ [],
    )
    ∷ (
      "cudaArrayGetSparseProperties",
      "sparseProperties" ∷ "array" ∷ [],
      "sparseProperties" ∷ "array" ∷ [],
    )
    ∷ (
      "cudaMipmappedArrayGetSparseProperties",
      "sparseProperties" ∷ "mipmap" ∷ [],
      "sparseProperties" ∷ "mipmap" ∷ [],
    )
    ∷ ("cudaMemcpy", "dst" ∷ "src" ∷ "count" ∷ "kind" ∷ [], "dst" ∷ "src" ∷ "count" ∷ "kind" ∷ [])
    ∷ (
      "cudaMemcpyPeer",
      "dst" ∷ "dstDevice" ∷ "src" ∷ "srcDevice" ∷ "count" ∷ [],
      "dst" ∷ "dstDevice" ∷ "src" ∷ "srcDevice" ∷ "count" ∷ [],
    )
    ∷ (
      "cudaMemcpy2D",
      "dst" ∷ "dpitch" ∷ "src" ∷ "spitch" ∷ "width" ∷ "height" ∷ "kind" ∷ [],
      "dst" ∷ "dpitch" ∷ "src" ∷ "spitch" ∷ "width" ∷ "height" ∷ "kind" ∷ [],
    )
    ∷ (
      "cudaMemcpy2DToArray",
      "dst" ∷ "wOffset" ∷ "hOffset" ∷ "src" ∷ "spitch" ∷ "width" ∷ "height" ∷ "kind" ∷ [],
      "dst" ∷ "wOffset" ∷ "hOffset" ∷ "src" ∷ "spitch" ∷ "width" ∷ "height" ∷ "kind" ∷ [],
    )
    ∷ (
      "cudaMemcpy2DFromArray",
      "dst" ∷ "dpitch" ∷ "src" ∷ "wOffset" ∷ "hOffset" ∷ "width" ∷ "height" ∷ "kind" ∷ [],
      "dst" ∷ "dpitch" ∷ "src" ∷ "wOffset" ∷ "hOffset" ∷ "width" ∷ "height" ∷ "kind" ∷ [],
    )
    ∷ ("cudaMemset", "devPtr" ∷ "value" ∷ "count" ∷ [], "devPtr" ∷ "value" ∷ "count" ∷ [])
    ∷ (
      "cudaMemset2D",
      "devPtr" ∷ "pitch" ∷ "value" ∷ "width" ∷ "height" ∷ [],
      "devPtr" ∷ "pitch" ∷ "value" ∷ "width" ∷ "height" ∷ [],
    )
    ∷ (
      "cudaMemset3D",
      "pitchedDevPtr" ∷ "value" ∷ "extent" ∷ [],
      "pitchedDevPtr" ∷ "value" ∷ "extent" ∷ [],
    )
    ∷ ("cudaGetSymbolAddress", "devPtr" ∷ "symbol" ∷ [], "devPtr" ∷ "symbol" ∷ [])
    ∷ ("cudaGetSymbolSize", "size" ∷ "symbol" ∷ [], "size" ∷ "symbol" ∷ [])
    ∷ (
      "cudaMemAdvise",
      "devPtr" ∷ "count" ∷ "advice" ∷ "device" ∷ [],
      "devPtr" ∷ "count" ∷ "advice" ∷ "device" ∷ [],
    )
    ∷ (
      "cudaMemAdvise_v2",
      "devPtr" ∷ "count" ∷ "advice" ∷ "location" ∷ [],
      "devPtr" ∷ "count" ∷ "advice" ∷ "location" ∷ [],
    )
    ∷ (
      "cudaMemRangeGetAttribute",
      "data" ∷ "dataSize" ∷ "attribute" ∷ "devPtr" ∷ "count" ∷ [],
      "data" ∷ "dataSize" ∷ "attribute" ∷ "devPtr" ∷ "count" ∷ [],
    )
    ∷ (
      "cudaMemRangeGetAttributes",
      "data" ∷ "dataSizes" ∷ "attributes" ∷ "numAttributes" ∷ "devPtr" ∷ "count" ∷ [],
      "data" ∷ "dataSizes" ∷ "attributes" ∷ "numAttributes" ∷ "devPtr" ∷ "count" ∷ [],
    )
    ∷ ("cudaMallocAsync", "devPtr" ∷ "size" ∷ "hStream" ∷ [], "devPtr" ∷ "size" ∷ "hStream" ∷ [])
    ∷ ("cudaFreeAsync", "devPtr" ∷ "hStream" ∷ [], "devPtr" ∷ "hStream" ∷ [])
    ∷ ("cudaMemPoolTrimTo", "memPool" ∷ "minBytesToKeep" ∷ [], "memPool" ∷ "minBytesToKeep" ∷ [])
    ∷ (
      "cudaMemPoolSetAttribute",
      "memPool" ∷ "attr" ∷ "value" ∷ [],
      "memPool" ∷ "attr" ∷ "value" ∷ [],
    )
    ∷ (
      "cudaMemPoolGetAttribute",
      "memPool" ∷ "attr" ∷ "value" ∷ [],
      "memPool" ∷ "attr" ∷ "value" ∷ [],
    )
    ∷ (
      "cudaMemPoolSetAccess",
      "memPool" ∷ "descList" ∷ "count" ∷ [],
      "memPool" ∷ "descList" ∷ "count" ∷ [],
    )
    ∷ (
      "cudaMemPoolGetAccess",
      "flags" ∷ "memPool" ∷ "location" ∷ [],
      "flags" ∷ "memPool" ∷ "location" ∷ [],
    )
    ∷ ("cudaMemPoolCreate", "memPool" ∷ "poolProps" ∷ [], "memPool" ∷ "poolProps" ∷ [])
    ∷ ("cudaMemPoolDestroy", "memPool" ∷ [], "memPool" ∷ [])
    ∷ (
      "cudaMallocFromPoolAsync",
      "ptr" ∷ "size" ∷ "memPool" ∷ "stream" ∷ [],
      "ptr" ∷ "size" ∷ "memPool" ∷ "stream" ∷ [],
    )
    ∷ []
