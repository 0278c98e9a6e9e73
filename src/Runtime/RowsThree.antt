-- ===== src/Runtime/RowsThree.antt =====
-- interception/interception_runtime.c: INTERCEPT_RT, part three of the lines: the function, the names of
-- its parameters, and the arguments that it passes on.
use Prim.Native.String.{String}
use fan_master_thesis.Base.{List, [], ◌∷◌}

unfoldable pub runtime_rows_3 : List (String × List String × List String)
runtime_rows_3 =
    ("cudaMemPoolExportPointer", "exportData" ∷ "ptr" ∷ [], "exportData" ∷ "ptr" ∷ [])
    ∷ (
      "cudaMemPoolImportPointer",
      "ptr" ∷ "memPool" ∷ "exportData" ∷ [],
      "ptr" ∷ "memPool" ∷ "exportData" ∷ [],
    )
    ∷ ("cudaPointerGetAttributes", "attributes" ∷ "ptr" ∷ [], "attributes" ∷ "ptr" ∷ [])
    ∷ (
      "cudaDeviceCanAccessPeer",
      "canAccessPeer" ∷ "device" ∷ "peerDevice" ∷ [],
      "canAccessPeer" ∷ "device" ∷ "peerDevice" ∷ [],
    )
    ∷ ("cudaDeviceEnablePeerAccess", "peerDevice" ∷ "flags" ∷ [], "peerDevice" ∷ "flags" ∷ [])
    ∷ ("cudaDeviceDisablePeerAccess", "peerDevice" ∷ [], "peerDevice" ∷ [])
    ∷ ("cudaGraphicsUnregisterResource", "resource" ∷ [], "resource" ∷ [])
    ∷ ("cudaGraphicsResourceSetMapFlags", "resource" ∷ "flags" ∷ [], "resource" ∷ "flags" ∷ [])
    ∷ (
      "cudaGraphicsResourceGetMappedPointer",
      "devPtr" ∷ "size" ∷ "resource" ∷ [],
      "devPtr" ∷ "size" ∷ "resource" ∷ [],
    )
    ∷ (
      "cudaGraphicsSubResourceGetMappedArray",
      "array" ∷ "resource" ∷ "arrayIndex" ∷ "mipLevel" ∷ [],
      "array" ∷ "resource" ∷ "arrayIndex" ∷ "mipLevel" ∷ [],
    )
    ∷ (
      "cudaGraphicsResourceGetMappedMipmappedArray",
      "mipmappedArray" ∷ "resource" ∷ [],
      "mipmappedArray" ∷ "resource" ∷ [],
    )
    ∷ ("cudaGetChannelDesc", "desc" ∷ "array" ∷ [], "desc" ∷ "array" ∷ [])
    ∷ (
      "cudaCreateTextureObject",
      "pTexObject" ∷ "pResDesc" ∷ "pTexDesc" ∷ "pResViewDesc" ∷ [],
      "pTexObject" ∷ "pResDesc" ∷ "pTexDesc" ∷ "pResViewDesc" ∷ [],
    )
    ∷ ("cudaDestroyTextureObject", "texObject" ∷ [], "texObject" ∷ [])
    ∷ (
      "cudaGetTextureObjectResourceDesc",
      "pResDesc" ∷ "texObject" ∷ [],
      "pResDesc" ∷ "texObject" ∷ [],
    )
    ∷ (
      "cudaGetTextureObjectTextureDesc",
      "pTexDesc" ∷ "texObject" ∷ [],
      "pTexDesc" ∷ "texObject" ∷ [],
    )
    ∷ (
      "cudaGetTextureObjectResourceViewDesc",
      "pResViewDesc" ∷ "texObject" ∷ [],
      "pResViewDesc" ∷ "texObject" ∷ [],
    )
    ∷ ("cudaCreateSurfaceObject", "pSurfObject" ∷ "pResDesc" ∷ [], "pSurfObject" ∷ "pResDesc" ∷ [])
    ∷ ("cudaDestroySurfaceObject", "surfObject" ∷ [], "surfObject" ∷ [])
    ∷ (
      "cudaGetSurfaceObjectResourceDesc",
      "pResDesc" ∷ "surfObject" ∷ [],
      "pResDesc" ∷ "surfObject" ∷ [],
    )
    ∷ ("cudaDriverGetVersion", "driverVersion" ∷ [], "driverVersion" ∷ [])
    ∷ ("cudaRuntimeGetVersion", "runtimeVersion" ∷ [], "runtimeVersion" ∷ [])
    ∷ ("cudaGraphCreate", "pGraph" ∷ "flags" ∷ [], "pGraph" ∷ "flags" ∷ [])
    ∷ (
      "cudaGraphAddKernelNode",
      "pGraphNode" ∷ "graph" ∷ "pDependencies" ∷ "numDependencies" ∷ "pNodeParams" ∷ [],
      "pGraphNode" ∷ "graph" ∷ "pDependencies" ∷ "numDependencies" ∷ "pNodeParams" ∷ [],
    )
    ∷ ("cudaGraphKernelNodeGetParams", "node" ∷ "pNodeParams" ∷ [], "node" ∷ "pNodeParams" ∷ [])
    ∷ ("cudaGraphKernelNodeSetParams", "node" ∷ "pNodeParams" ∷ [], "node" ∷ "pNodeParams" ∷ [])
    ∷ (
      "cudaGraphAddMemcpyNode",
      "pGraphNode" ∷ "graph" ∷ "pDependencies" ∷ "numDependencies" ∷ "pCopyParams" ∷ [],
      "pGraphNode" ∷ "graph" ∷ "pDependencies" ∷ "numDependencies" ∷ "pCopyParams" ∷ [],
    )
    ∷ ("cudaGraphMemcpyNodeGetParams", "node" ∷ "pNodeParams" ∷ [], "node" ∷ "pNodeParams" ∷ [])
    ∷ ("cudaGraphMemcpyNodeSetParams", "node" ∷ "pNodeParams" ∷ [], "node" ∷ "pNodeParams" ∷ [])
    ∷ (
      "cudaGraphAddMemsetNode",
      "pGraphNode" ∷ "graph" ∷ "pDependencies" ∷ "numDependencies" ∷ "pMemsetParams" ∷ [],
      "pGraphNode" ∷ "graph" ∷ "pDependencies" ∷ "numDependencies" ∷ "pMemsetParams" ∷ [],
    )
    ∷ ("cudaGraphMemsetNodeGetParams", "node" ∷ "pNodeParams" ∷ [], "node" ∷ "pNodeParams" ∷ [])
    ∷ ("cudaGraphMemsetNodeSetParams", "node" ∷ "pNodeParams" ∷ [], "node" ∷ "pNodeParams" ∷ [])
    ∷ (
      "cudaGraphAddHostNode",
      "pGraphNode" ∷ "graph" ∷ "pDependencies" ∷ "numDependencies" ∷ "pNodeParams" ∷ [],
      "pGraphNode" ∷ "graph" ∷ "pDependencies" ∷ "numDependencies" ∷ "pNodeParams" ∷ [],
    )
    ∷ ("cudaGraphHostNodeGetParams", "node" ∷ "pNodeParams" ∷ [], "node" ∷ "pNodeParams" ∷ [])
    ∷ ("cudaGraphHostNodeSetParams", "node" ∷ "pNodeParams" ∷ [], "node" ∷ "pNodeParams" ∷ [])
    ∷ (
      "cudaGraphAddChildGraphNode",
      "pGraphNode" ∷ "graph" ∷ "pDependencies" ∷ "numDependencies" ∷ "childGraph" ∷ [],
      "pGraphNode" ∷ "graph" ∷ "pDependencies" ∷ "numDependencies" ∷ "childGraph" ∷ [],
    )
    ∷ ("cudaGraphChildGraphNodeGetGraph", "node" ∷ "pGraph" ∷ [], "node" ∷ "pGraph" ∷ [])
    ∷ (
      "cudaGraphAddEmptyNode",
      "pGraphNode" ∷ "graph" ∷ "pDependencies" ∷ "numDependencies" ∷ [],
      "pGraphNode" ∷ "graph" ∷ "pDependencies" ∷ "numDependencies" ∷ [],
    )
    ∷ (
      "cudaGraphAddEventRecordNode",
      "pGraphNode" ∷ "graph" ∷ "pDependencies" ∷ "numDependencies" ∷ "event" ∷ [],
      "pGraphNode" ∷ "graph" ∷ "pDependencies" ∷ "numDependencies" ∷ "event" ∷ [],
    )
    ∷ ("cudaGraphEventRecordNodeGetEvent", "node" ∷ "event_out" ∷ [], "node" ∷ "event_out" ∷ [])
    ∷ ("cudaGraphEventRecordNodeSetEvent", "node" ∷ "event" ∷ [], "node" ∷ "event" ∷ [])
    ∷ (
      "cudaGraphAddEventWaitNode",
      "pGraphNode" ∷ "graph" ∷ "pDependencies" ∷ "numDependencies" ∷ "event" ∷ [],
      "pGraphNode" ∷ "graph" ∷ "pDependencies" ∷ "numDependencies" ∷ "event" ∷ [],
    )
    ∷ ("cudaGraphEventWaitNodeGetEvent", "node" ∷ "event_out" ∷ [], "node" ∷ "event_out" ∷ [])
    ∷ ("cudaGraphEventWaitNodeSetEvent", "node" ∷ "event" ∷ [], "node" ∷ "event" ∷ [])
    ∷ (
      "cudaGraphAddExternalSemaphoresSignalNode",
      "pGraphNode" ∷ "graph" ∷ "pDependencies" ∷ "numDependencies" ∷ "nodeParams" ∷ [],
      "pGraphNode" ∷ "graph" ∷ "pDependencies" ∷ "numDependencies" ∷ "nodeParams" ∷ [],
    )
    ∷ (
      "cudaGraphExternalSemaphoresSignalNodeGetParams",
      "hNode" ∷ "params_out" ∷ [],
      "hNode" ∷ "params_out" ∷ [],
    )
    ∷ (
      "cudaGraphExternalSemaphoresSignalNodeSetParams",
      "hNode" ∷ "nodeParams" ∷ [],
      "hNode" ∷ "nodeParams" ∷ [],
    )
    ∷ (
      "cudaGraphAddExternalSemaphoresWaitNode",
      "pGraphNode" ∷ "graph" ∷ "pDependencies" ∷ "numDependencies" ∷ "nodeParams" ∷ [],
      "pGraphNode" ∷ "graph" ∷ "pDependencies" ∷ "numDependencies" ∷ "nodeParams" ∷ [],
    )
    ∷ (
      "cudaGraphExternalSemaphoresWaitNodeGetParams",
      "hNode" ∷ "params_out" ∷ [],
      "hNode" ∷ "params_out" ∷ [],
    )
    ∷ (
      "cudaGraphExternalSemaphoresWaitNodeSetParams",
      "hNode" ∷ "nodeParams" ∷ [],
      "hNode" ∷ "nodeParams" ∷ [],
    )
    ∷ (
      "cudaGraphAddMemAllocNode",
      "pGraphNode" ∷ "graph" ∷ "pDependencies" ∷ "numDependencies" ∷ "nodeParams" ∷ [],
      "pGraphNode" ∷ "graph" ∷ "pDependencies" ∷ "numDependencies" ∷ "nodeParams" ∷ [],
    )
    ∷ ("cudaGraphMemAllocNodeGetParams", "node" ∷ "params_out" ∷ [], "node" ∷ "params_out" ∷ [])
    ∷ (
      "cudaGraphAddMemFreeNode",
      "pGraphNode" ∷ "graph" ∷ "pDependencies" ∷ "numDependencies" ∷ "dptr" ∷ [],
      "pGraphNode" ∷ "graph" ∷ "pDependencies" ∷ "numDependencies" ∷ "dptr" ∷ [],
    )
    ∷ ("cudaGraphMemFreeNodeGetParams", "node" ∷ "dptr_out" ∷ [], "node" ∷ "dptr_out" ∷ [])
    ∷ ("cudaDeviceGraphMemTrim", "device" ∷ [], "device" ∷ [])
    ∷ (
      "cudaDeviceGetGraphMemAttribute",
      "device" ∷ "attr" ∷ "value" ∷ [],
      "device" ∷ "attr" ∷ "value" ∷ [],
    )
    ∷ (
      "cudaDeviceSetGraphMemAttribute",
      "device" ∷ "attr" ∷ "value" ∷ [],
      "device" ∷ "attr" ∷ "value" ∷ [],
    )
    ∷ ("cudaGraphClone", "pGraphClone" ∷ "originalGraph" ∷ [], "pGraphClone" ∷ "originalGraph" ∷ [])
    ∷ (
      "cudaGraphNodeFindInClone",
      "pNode" ∷ "originalNode" ∷ "clonedGraph" ∷ [],
      "pNode" ∷ "originalNode" ∷ "clonedGraph" ∷ [],
    )
    ∷ ("cudaGraphNodeGetType", "node" ∷ "pType" ∷ [], "node" ∷ "pType" ∷ [])
    ∷ (
      "cudaGraphGetNodes",
      "graph" ∷ "nodes" ∷ "numNodes" ∷ [],
      "graph" ∷ "nodes" ∷ "numNodes" ∷ [],
    )
    ∷ (
      "cudaGraphGetRootNodes",
      "graph" ∷ "pRootNodes" ∷ "pNumRootNodes" ∷ [],
      "graph" ∷ "pRootNodes" ∷ "pNumRootNodes" ∷ [],
    )
    ∷ []
