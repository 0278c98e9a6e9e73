-- ===== src/Runtime/RowsFour.antt =====
-- interception/interception_runtime.c: INTERCEPT_RT, part four of the lines: the function, the names of
-- its parameters, and the arguments that it passes on.
use Prim.Native.String.{String}
use fan_master_thesis.Base.{List, [], ◌∷◌}

unfoldable pub runtime_rows_4 : List (String × List String × List String)
runtime_rows_4 =
    (
      "cudaGraphGetEdges",
      "graph" ∷ "from" ∷ "to" ∷ "numEdges" ∷ [],
      "graph" ∷ "from" ∷ "to" ∷ "numEdges" ∷ [],
    )
    ∷ (
      "cudaGraphGetEdges_v2",
      "graph" ∷ "from" ∷ "to" ∷ "edgeData" ∷ "numEdges" ∷ [],
      "graph" ∷ "from" ∷ "to" ∷ "edgeData" ∷ "numEdges" ∷ [],
    )
    ∷ (
      "cudaGraphNodeGetDependencies",
      "node" ∷ "pDependencies" ∷ "pNumDependencies" ∷ [],
      "node" ∷ "pDependencies" ∷ "pNumDependencies" ∷ [],
    )
    ∷ (
      "cudaGraphNodeGetDependencies_v2",
      "node" ∷ "pDependencies" ∷ "edgeData" ∷ "pNumDependencies" ∷ [],
      "node" ∷ "pDependencies" ∷ "edgeData" ∷ "pNumDependencies" ∷ [],
    )
    ∷ (
      "cudaGraphNodeGetDependentNodes",
      "node" ∷ "pDependentNodes" ∷ "pNumDependentNodes" ∷ [],
      "node" ∷ "pDependentNodes" ∷ "pNumDependentNodes" ∷ [],
    )
    ∷ (
      "cudaGraphNodeGetDependentNodes_v2",
      "node" ∷ "pDependentNodes" ∷ "edgeData" ∷ "pNumDependentNodes" ∷ [],
      "node" ∷ "pDependentNodes" ∷ "edgeData" ∷ "pNumDependentNodes" ∷ [],
    )
    ∷ (
      "cudaGraphAddDependencies",
      "graph" ∷ "from" ∷ "to" ∷ "numDependencies" ∷ [],
      "graph" ∷ "from" ∷ "to" ∷ "numDependencies" ∷ [],
    )
    ∷ (
      "cudaGraphAddDependencies_v2",
      "graph" ∷ "from" ∷ "to" ∷ "edgeData" ∷ "numDependencies" ∷ [],
      "graph" ∷ "from" ∷ "to" ∷ "edgeData" ∷ "numDependencies" ∷ [],
    )
    ∷ (
      "cudaGraphRemoveDependencies",
      "graph" ∷ "from" ∷ "to" ∷ "numDependencies" ∷ [],
      "graph" ∷ "from" ∷ "to" ∷ "numDependencies" ∷ [],
    )
    ∷ (
      "cudaGraphRemoveDependencies_v2",
      "graph" ∷ "from" ∷ "to" ∷ "edgeData" ∷ "numDependencies" ∷ [],
      "graph" ∷ "from" ∷ "to" ∷ "edgeData" ∷ "numDependencies" ∷ [],
    )
    ∷ ("cudaGraphDestroyNode", "node" ∷ [], "node" ∷ [])
    ∷ (
      "cudaGraphInstantiateWithParams",
      "pGraphExec" ∷ "graph" ∷ "instantiateParams" ∷ [],
      "pGraphExec" ∷ "graph" ∷ "instantiateParams" ∷ [],
    )
    ∷ ("cudaGraphExecGetFlags", "graphExec" ∷ "flags" ∷ [], "graphExec" ∷ "flags" ∷ [])
    ∷ (
      "cudaGraphExecKernelNodeSetParams",
      "hGraphExec" ∷ "node" ∷ "pNodeParams" ∷ [],
      "hGraphExec" ∷ "node" ∷ "pNodeParams" ∷ [],
    )
    ∷ (
      "cudaGraphExecMemcpyNodeSetParams",
      "hGraphExec" ∷ "node" ∷ "pNodeParams" ∷ [],
      "hGraphExec" ∷ "node" ∷ "pNodeParams" ∷ [],
    )
    ∷ (
      "cudaGraphExecMemsetNodeSetParams",
      "hGraphExec" ∷ "node" ∷ "pNodeParams" ∷ [],
      "hGraphExec" ∷ "node" ∷ "pNodeParams" ∷ [],
    )
    ∷ (
      "cudaGraphExecHostNodeSetParams",
      "hGraphExec" ∷ "node" ∷ "pNodeParams" ∷ [],
      "hGraphExec" ∷ "node" ∷ "pNodeParams" ∷ [],
    )
    ∷ (
      "cudaGraphExecChildGraphNodeSetParams",
      "hGraphExec" ∷ "node" ∷ "childGraph" ∷ [],
      "hGraphExec" ∷ "node" ∷ "childGraph" ∷ [],
    )
    ∷ (
      "cudaGraphExecEventRecordNodeSetEvent",
      "hGraphExec" ∷ "hNode" ∷ "event" ∷ [],
      "hGraphExec" ∷ "hNode" ∷ "event" ∷ [],
    )
    ∷ (
      "cudaGraphExecEventWaitNodeSetEvent",
      "hGraphExec" ∷ "hNode" ∷ "event" ∷ [],
      "hGraphExec" ∷ "hNode" ∷ "event" ∷ [],
    )
    ∷ (
      "cudaGraphExecExternalSemaphoresSignalNodeSetParams",
      "hGraphExec" ∷ "hNode" ∷ "nodeParams" ∷ [],
      "hGraphExec" ∷ "hNode" ∷ "nodeParams" ∷ [],
    )
    ∷ (
      "cudaGraphExecExternalSemaphoresWaitNodeSetParams",
      "hGraphExec" ∷ "hNode" ∷ "nodeParams" ∷ [],
      "hGraphExec" ∷ "hNode" ∷ "nodeParams" ∷ [],
    )
    ∷ (
      "cudaGraphNodeSetEnabled",
      "hGraphExec" ∷ "hNode" ∷ "isEnabled" ∷ [],
      "hGraphExec" ∷ "hNode" ∷ "isEnabled" ∷ [],
    )
    ∷ (
      "cudaGraphNodeGetEnabled",
      "hGraphExec" ∷ "hNode" ∷ "isEnabled" ∷ [],
      "hGraphExec" ∷ "hNode" ∷ "isEnabled" ∷ [],
    )
    ∷ (
      "cudaGraphExecUpdate",
      "hGraphExec" ∷ "hGraph" ∷ "resultInfo" ∷ [],
      "hGraphExec" ∷ "hGraph" ∷ "resultInfo" ∷ [],
    )
    ∷ ("cudaGraphUpload", "graphExec" ∷ "stream" ∷ [], "graphExec" ∷ "stream" ∷ [])
    ∷ ("cudaGraphLaunch", "graphExec" ∷ "stream" ∷ [], "graphExec" ∷ "stream" ∷ [])
    ∷ ("cudaGraphExecDestroy", "graphExec" ∷ [], "graphExec" ∷ [])
    ∷ ("cudaGraphDestroy", "graph" ∷ [], "graph" ∷ [])
    ∷ ("cudaGraphDebugDotPrint", "graph" ∷ "path" ∷ "flags" ∷ [], "graph" ∷ "path" ∷ "flags" ∷ [])
    ∷ (
      "cudaUserObjectCreate",
      "object_out" ∷ "ptr" ∷ "destroy" ∷ "initialRefcount" ∷ "flags" ∷ [],
      "object_out" ∷ "ptr" ∷ "destroy" ∷ "initialRefcount" ∷ "flags" ∷ [],
    )
    ∷ (
      "cudaGraphAddNode",
      "pGraphNode" ∷ "graph" ∷ "pDependencies" ∷ "numDependencies" ∷ "nodeParams" ∷ [],
      "pGraphNode" ∷ "graph" ∷ "pDependencies" ∷ "numDependencies" ∷ "nodeParams" ∷ [],
    )
    ∷ (
      "cudaGraphAddNode_v2",
      "pGraphNode" ∷ "graph" ∷ "pDependencies" ∷ "dependencyData" ∷ "numDependencies" ∷ "nodeParams"
          ∷ [],
      "pGraphNode" ∷ "graph" ∷ "pDependencies" ∷ "dependencyData" ∷ "numDependencies" ∷ "nodeParams"
          ∷ [],
    )
    ∷ ("cudaGraphNodeSetParams", "node" ∷ "nodeParams" ∷ [], "node" ∷ "nodeParams" ∷ [])
    ∷ (
      "cudaGraphExecNodeSetParams",
      "graphExec" ∷ "node" ∷ "nodeParams" ∷ [],
      "graphExec" ∷ "node" ∷ "nodeParams" ∷ [],
    )
    ∷ (
      "cudaGetDriverEntryPoint",
      "symbol" ∷ "funcPtr" ∷ "flags" ∷ "driverStatus" ∷ [],
      "symbol" ∷ "funcPtr" ∷ "flags" ∷ "driverStatus" ∷ [],
    )
    ∷ (
      "cudaGetDriverEntryPointByVersion",
      "symbol" ∷ "funcPtr" ∷ "cudaVersion" ∷ "flags" ∷ "driverStatus" ∷ [],
      "symbol" ∷ "funcPtr" ∷ "cudaVersion" ∷ "flags" ∷ "driverStatus" ∷ [],
    )
    ∷ (
      "cudaGetExportTable",
      "ppExportTable" ∷ "pExportTableId" ∷ [],
      "ppExportTable" ∷ "pExportTableId" ∷ [],
    )
    ∷ ("cudaGetKernel", "kernelPtr" ∷ "entryFuncAddr" ∷ [], "kernelPtr" ∷ "entryFuncAddr" ∷ [])
    ∷ (
      "cudaMemcpyToArray",
      "dst" ∷ "wOffset" ∷ "hOffset" ∷ "src" ∷ "count" ∷ "kind" ∷ [],
      "dst" ∷ "wOffset" ∷ "hOffset" ∷ "src" ∷ "count" ∷ "kind" ∷ [],
    )
    ∷ (
      "cudaMemcpyFromArray",
      "dst" ∷ "src" ∷ "wOffset" ∷ "hOffset" ∷ "count" ∷ "kind" ∷ [],
      "dst" ∷ "src" ∷ "wOffset" ∷ "hOffset" ∷ "count" ∷ "kind" ∷ [],
    )
    ∷ ("cudaStreamWaitEvent", "stream" ∷ "event" ∷ "flags" ∷ [], "stream" ∷ "event" ∷ "flags" ∷ [])
    ∷ (
      "cudaStreamAddCallback",
      "stream" ∷ "callback" ∷ "userData" ∷ "flags" ∷ [],
      "stream" ∷ "callback" ∷ "userData" ∷ "flags" ∷ [],
    )
    ∷ (
      "cudaStreamAttachMemAsync",
      "stream" ∷ "devPtr" ∷ "length" ∷ "flags" ∷ [],
      "stream" ∷ "devPtr" ∷ "length" ∷ "flags" ∷ [],
    )
    ∷ (
      "cudaMemPrefetchAsync",
      "devPtr" ∷ "count" ∷ "dstDevice" ∷ "stream" ∷ [],
      "devPtr" ∷ "count" ∷ "dstDevice" ∷ "stream" ∷ [],
    )
    ∷ (
      "cudaMemPrefetchAsync_v2",
      "devPtr" ∷ "count" ∷ "location" ∷ "flags" ∷ "stream" ∷ [],
      "devPtr" ∷ "count" ∷ "location" ∷ "flags" ∷ "stream" ∷ [],
    )
    ∷ (
      "cudaStreamGetCaptureInfo_ptsz",
      "stream" ∷ "captureStatus_out" ∷ "id_out" ∷ [],
      "stream" ∷ "captureStatus_out" ∷ "id_out" ∷ [],
    )
    ∷ ("cudaStreamCopyAttributes", "dstStream" ∷ "srcStream" ∷ [], "dstStream" ∷ "srcStream" ∷ [])
    ∷ ("cudaStreamGetAttribute", "stream" ∷ "attr" ∷ "value" ∷ [], "stream" ∷ "attr" ∷ "value" ∷ [])
    ∷ ("cudaStreamSetAttribute", "stream" ∷ "attr" ∷ "param" ∷ [], "stream" ∷ "attr" ∷ "param" ∷ [])
    ∷ (
      "cudaLibraryEnumerateKernels",
      "kernels" ∷ "numKernels" ∷ "lib" ∷ [],
      "kernels" ∷ "numKernels" ∷ "lib" ∷ [],
    )
    ∷ (
      "cudaLibraryGetGlobal",
      "dptr" ∷ "bytes" ∷ "library" ∷ "name" ∷ [],
      "dptr" ∷ "bytes" ∷ "library" ∷ "name" ∷ [],
    )
    ∷ (
      "cudaLibraryGetKernel",
      "pKernel" ∷ "library" ∷ "name" ∷ [],
      "pKernel" ∷ "library" ∷ "name" ∷ [],
    )
    ∷ ("cudaLibraryGetKernelCount", "count" ∷ "lib" ∷ [], "count" ∷ "lib" ∷ [])
    ∷ (
      "cudaLibraryGetManaged",
      "dptr" ∷ "bytes" ∷ "library" ∷ "name" ∷ [],
      "dptr" ∷ "bytes" ∷ "library" ∷ "name" ∷ [],
    )
    ∷ (
      "cudaLibraryGetUnifiedFunction",
      "fptr" ∷ "library" ∷ "symbol" ∷ [],
      "fptr" ∷ "library" ∷ "symbol" ∷ [],
    )
    ∷ (
      "cudaLibraryLoadData",
      "library" ∷ "code" ∷ "jitOptions" ∷ "jitOptionsValues" ∷ "numJitOptions" ∷ "libraryOptions"
          ∷ "libraryOptionValues" ∷ "numLibraryOptions" ∷ [],
      "library" ∷ "code" ∷ "jitOptions" ∷ "jitOptionsValues" ∷ "numJitOptions" ∷ "libraryOptions"
          ∷ "libraryOptionValues" ∷ "numLibraryOptions" ∷ [],
    )
    ∷ (
      "cudaLibraryLoadFromFile",
      "library" ∷ "fileName" ∷ "jitOptions" ∷ "jitOptionsValues" ∷ "numJitOptions"
          ∷ "libraryOptions" ∷ "libraryOptionValues" ∷ "numLibraryOptions" ∷ [],
      "library" ∷ "fileName" ∷ "jitOptions" ∷ "jitOptionsValues" ∷ "numJitOptions"
          ∷ "libraryOptions" ∷ "libraryOptionValues" ∷ "numLibraryOptions" ∷ [],
    )
    ∷ ("cudaLibraryUnload", "library" ∷ [], "library" ∷ [])
    ∷ []
