-- ===== src/Dispatch/DlsymSecond.antt =====
-- interception/interception.cpp: the TRY_DLSYM lines of `dlsym`, (text, target), the second part.
use Prim.Native.String.{String}
use fan_master_thesis.Base.{List, [], ◌∷◌}

unfoldable pub dlsym_rows_3 : List (String × String)
dlsym_rows_3 =
    ("cuLaunchKernelEx", "cuLaunchKernelEx_intercepted")
    ∷ ("cuEventCreate", "cuEventCreate")
    ∷ ("cuEventRecord", "cuEventRecord")
    ∷ ("cuEventRecordWithFlags", "cuEventRecordWithFlags_intercepted")
    ∷ ("cuEventQuery", "cuEventQuery_intercepted")
    ∷ ("cuEventSynchronize", "cuEventSynchronize_intercepted")
    ∷ ("cuEventDestroy", "cuEventDestroy_intercepted")
    ∷ ("cuEventElapsedTime", "cuEventElapsedTime_intercepted")
    ∷ ("cuStreamWaitValue32", "cuStreamWaitValue32_intercepted")
    ∷ ("cuStreamWriteValue32", "cuStreamWriteValue32_intercepted")
    ∷ ("cuStreamWaitValue64", "cuStreamWaitValue64_intercepted")
    ∷ ("cuStreamWriteValue64", "cuStreamWriteValue64_intercepted")
    ∷ ("cuStreamBatchMemOp", "cuStreamBatchMemOp_intercepted")
    ∷ ("cuStreamCreate", "cuStreamCreate")
    ∷ ("cuStreamCreateWithPriority", "cuStreamCreateWithPriority_intercepted")
    ∷ ("cuStreamGetPriority", "cuStreamGetPriority")
    ∷ ("cuStreamGetFlags", "cuStreamGetFlags_intercepted")
    ∷ ("cuStreamGetCtx", "cuStreamGetCtx_intercepted")
    ∷ ("cuStreamGetId", "cuStreamGetId_intercepted")
    ∷ ("cuStreamDestroy", "cuStreamDestroy_intercepted")
    ∷ ("cuStreamWaitEvent", "cuStreamWaitEvent_intercepted")
    ∷ ("cuStreamAddCallback", "cuStreamAddCallback_intercepted")
    ∷ ("cuStreamSynchronize", "cuStreamSynchronize")
    ∷ ("cuStreamQuery", "cuStreamQuery_intercepted")
    ∷ ("cuStreamAttachMemAsync", "cuStreamAttachMemAsync_intercepted")
    ∷ ("cuStreamCopyAttributes", "cuStreamCopyAttributes_intercepted")
    ∷ ("cuStreamGetAttribute", "cuStreamGetAttribute_intercepted")
    ∷ ("cuStreamSetAttribute", "cuStreamSetAttribute_intercepted")
    ∷ ("cuDeviceCanAccessPeer", "cuDeviceCanAccessPeer_intercepted")
    ∷ ("cuCtxEnablePeerAccess", "cuCtxEnablePeerAccess_intercepted")
    ∷ ("cuCtxDisablePeerAccess", "cuCtxDisablePeerAccess_intercepted")
    ∷ ("cuIpcGetEventHandle", "cuIpcGetEventHandle_intercepted")
    ∷ ("cuIpcOpenEventHandle", "cuIpcOpenEventHandle_intercepted")
    ∷ ("cuIpcGetMemHandle", "cuIpcGetMemHandle_intercepted")
    ∷ ("cuIpcOpenMemHandle", "cuIpcOpenMemHandle_intercepted")
    ∷ ("cuIpcCloseMemHandle", "cuIpcCloseMemHandle_intercepted")
    ∷ ("cuGraphicsUnregisterResource", "cuGraphicsUnregisterResource_intercepted")
    ∷ ("cuGraphicsMapResources", "cuGraphicsMapResources_intercepted")
    ∷ ("cuGraphicsUnmapResources", "cuGraphicsUnmapResources_intercepted")
    ∷ ("cuGraphicsResourceSetMapFlags", "cuGraphicsResourceSetMapFlags_intercepted")
    ∷ ("cuGraphicsSubResourceGetMappedArray", "cuGraphicsSubResourceGetMappedArray_intercepted")
    ∷ (
      "cuGraphicsResourceGetMappedMipmappedArray",
      "cuGraphicsResourceGetMappedMipmappedArray_intercepted",
    )
    ∷ ("cuGraphicsResourceGetMappedPointer", "cuGraphicsResourceGetMappedPointer_intercepted")
    ∷ ("cuGetExportTable", "cuGetExportTable")
    ∷ (
      "cuOccupancyMaxActiveBlocksPerMultiprocessorWithFlags",
      "cuOccupancyMaxActiveBlocksPerMultiprocessorWithFlags",
    )
    ∷ (
      "cuOccupancyAvailableDynamicSMemPerBlock",
      "cuOccupancyAvailableDynamicSMemPerBlock_intercepted",
    )
    ∷ ("cuOccupancyMaxPotentialClusterSize", "cuOccupancyMaxPotentialClusterSize_intercepted")
    ∷ ("cuOccupancyMaxActiveClusters", "cuOccupancyMaxActiveClusters_intercepted")
    ∷ ("cuMemAdvise", "cuMemAdvise_intercepted")
    ∷ ("cuMemPrefetchAsync", "cuMemPrefetchAsync_intercepted")
    ∷ ("cuMemRangeGetAttribute", "cuMemRangeGetAttribute_intercepted")
    ∷ ("cuMemRangeGetAttributes", "cuMemRangeGetAttributes_intercepted")
    ∷ ("cuGetErrorString", "cuGetErrorString_intercepted")
    ∷ ("cuGetErrorName", "cuGetErrorName_intercepted")
    ∷ ("cuGraphCreate", "cuGraphCreate_intercepted")
    ∷ ("cuGraphAddKernelNode", "cuGraphAddKernelNode_intercepted")
    ∷ ("cuGraphKernelNodeGetParams", "cuGraphKernelNodeGetParams_intercepted")
    ∷ ("cuGraphKernelNodeSetParams", "cuGraphKernelNodeSetParams_intercepted")
    ∷ ("cuGraphAddMemcpyNode", "cuGraphAddMemcpyNode_intercepted")
    ∷ ("cuGraphMemcpyNodeGetParams", "cuGraphMemcpyNodeGetParams_intercepted")
    ∷ ("cuGraphMemcpyNodeSetParams", "cuGraphMemcpyNodeSetParams_intercepted")
    ∷ ("cuGraphAddMemsetNode", "cuGraphAddMemsetNode_intercepted")
    ∷ ("cuGraphMemsetNodeGetParams", "cuGraphMemsetNodeGetParams_intercepted")
    ∷ ("cuGraphMemsetNodeSetParams", "cuGraphMemsetNodeSetParams_intercepted")
    ∷ ("cuGraphAddHostNode", "cuGraphAddHostNode_intercepted")
    ∷ ("cuGraphHostNodeGetParams", "cuGraphHostNodeGetParams_intercepted")
    ∷ ("cuGraphHostNodeSetParams", "cuGraphHostNodeSetParams_intercepted")
    ∷ ("cuGraphAddChildGraphNode", "cuGraphAddChildGraphNode_intercepted")
    ∷ ("cuGraphChildGraphNodeGetGraph", "cuGraphChildGraphNodeGetGraph_intercepted")
    ∷ ("cuGraphAddEmptyNode", "cuGraphAddEmptyNode_intercepted")
    ∷ ("cuGraphAddEventRecordNode", "cuGraphAddEventRecordNode_intercepted")
    ∷ ("cuGraphEventRecordNodeGetEvent", "cuGraphEventRecordNodeGetEvent_intercepted")
    ∷ ("cuGraphEventRecordNodeSetEvent", "cuGraphEventRecordNodeSetEvent_intercepted")
    ∷ ("cuGraphAddEventWaitNode", "cuGraphAddEventWaitNode_intercepted")
    ∷ ("cuGraphEventWaitNodeGetEvent", "cuGraphEventWaitNodeGetEvent_intercepted")
    ∷ []

unfoldable pub dlsym_rows_4 : List (String × String)
dlsym_rows_4 =
    ("cuGraphEventWaitNodeSetEvent", "cuGraphEventWaitNodeSetEvent_intercepted")
    ∷ (
      "cuGraphAddExternalSemaphoresSignalNode",
      "cuGraphAddExternalSemaphoresSignalNode_intercepted",
    )
    ∷ (
      "cuGraphExternalSemaphoresSignalNodeGetParams",
      "cuGraphExternalSemaphoresSignalNodeGetParams_intercepted",
    )
    ∷ (
      "cuGraphExternalSemaphoresSignalNodeSetParams",
      "cuGraphExternalSemaphoresSignalNodeSetParams_intercepted",
    )
    ∷ ("cuGraphAddExternalSemaphoresWaitNode", "cuGraphAddExternalSemaphoresWaitNode_intercepted")
    ∷ (
      "cuGraphExternalSemaphoresWaitNodeGetParams",
      "cuGraphExternalSemaphoresWaitNodeGetParams_intercepted",
    )
    ∷ (
      "cuGraphExternalSemaphoresWaitNodeSetParams",
      "cuGraphExternalSemaphoresWaitNodeSetParams_intercepted",
    )
    ∷ (
      "cuGraphExecExternalSemaphoresSignalNodeSetParams",
      "cuGraphExecExternalSemaphoresSignalNodeSetParams_intercepted",
    )
    ∷ (
      "cuGraphExecExternalSemaphoresWaitNodeSetParams",
      "cuGraphExecExternalSemaphoresWaitNodeSetParams_intercepted",
    )
    ∷ ("cuGraphAddMemAllocNode", "cuGraphAddMemAllocNode_intercepted")
    ∷ ("cuGraphMemAllocNodeGetParams", "cuGraphMemAllocNodeGetParams_intercepted")
    ∷ ("cuGraphAddMemFreeNode", "cuGraphAddMemFreeNode_intercepted")
    ∷ ("cuGraphMemFreeNodeGetParams", "cuGraphMemFreeNodeGetParams_intercepted")
    ∷ ("cuDeviceGraphMemTrim", "cuDeviceGraphMemTrim_intercepted")
    ∷ ("cuDeviceGetGraphMemAttribute", "cuDeviceGetGraphMemAttribute_intercepted")
    ∷ ("cuDeviceSetGraphMemAttribute", "cuDeviceSetGraphMemAttribute_intercepted")
    ∷ ("cuGraphClone", "cuGraphClone_intercepted")
    ∷ ("cuGraphNodeFindInClone", "cuGraphNodeFindInClone_intercepted")
    ∷ ("cuGraphNodeGetType", "cuGraphNodeGetType_intercepted")
    ∷ ("cuGraphGetNodes", "cuGraphGetNodes_intercepted")
    ∷ ("cuGraphGetRootNodes", "cuGraphGetRootNodes_intercepted")
    ∷ ("cuGraphGetEdges", "cuGraphGetEdges_intercepted")
    ∷ ("cuGraphNodeGetDependencies", "cuGraphNodeGetDependencies_intercepted")
    ∷ ("cuGraphNodeGetDependentNodes", "cuGraphNodeGetDependentNodes_intercepted")
    ∷ ("cuGraphAddDependencies", "cuGraphAddDependencies_intercepted")
    ∷ ("cuGraphRemoveDependencies", "cuGraphRemoveDependencies_intercepted")
    ∷ ("cuGraphDestroyNode", "cuGraphDestroyNode_intercepted")
    ∷ ("cuGraphInstantiate", "cuGraphInstantiate_intercepted")
    ∷ ("cuGraphUpload", "cuGraphUpload_intercepted")
    ∷ ("cuGraphLaunch", "cuGraphLaunch_intercepted")
    ∷ ("cuGraphExecDestroy", "cuGraphExecDestroy_intercepted")
    ∷ ("cuGraphDestroy", "cuGraphDestroy_intercepted")
    ∷ ("cuStreamBeginCapture", "cuStreamBeginCapture_intercepted")
    ∷ ("cuStreamBeginCaptureToGraph", "cuStreamBeginCaptureToGraph_intercepted")
    ∷ ("cuStreamEndCapture", "cuStreamEndCapture_intercepted")
    ∷ ("cuStreamIsCapturing", "cuStreamIsCapturing")
    ∷ ("cuStreamGetCaptureInfo", "cuStreamGetCaptureInfo_intercepted")
    ∷ ("cuStreamUpdateCaptureDependencies", "cuStreamUpdateCaptureDependencies_intercepted")
    ∷ ("cuGraphExecKernelNodeSetParams", "cuGraphExecKernelNodeSetParams_intercepted")
    ∷ ("cuGraphExecMemcpyNodeSetParams", "cuGraphExecMemcpyNodeSetParams_intercepted")
    ∷ ("cuGraphExecMemsetNodeSetParams", "cuGraphExecMemsetNodeSetParams_intercepted")
    ∷ ("cuGraphExecHostNodeSetParams", "cuGraphExecHostNodeSetParams_intercepted")
    ∷ ("cuGraphExecChildGraphNodeSetParams", "cuGraphExecChildGraphNodeSetParams_intercepted")
    ∷ ("cuGraphExecEventRecordNodeSetEvent", "cuGraphExecEventRecordNodeSetEvent_intercepted")
    ∷ ("cuGraphExecEventWaitNodeSetEvent", "cuGraphExecEventWaitNodeSetEvent_intercepted")
    ∷ ("cuThreadExchangeStreamCaptureMode", "cuThreadExchangeStreamCaptureMode_intercepted")
    ∷ ("cuGraphExecUpdate", "cuGraphExecUpdate_intercepted")
    ∷ ("cuGraphKernelNodeCopyAttributes", "cuGraphKernelNodeCopyAttributes_intercepted")
    ∷ ("cuGraphDebugDotPrint", "cuGraphDebugDotPrint_intercepted")
    ∷ ("cuUserObjectRetain", "cuUserObjectRetain_intercepted")
    ∷ ("cuUserObjectRelease", "cuUserObjectRelease_intercepted")
    ∷ ("cuGraphRetainUserObject", "cuGraphRetainUserObject_intercepted")
    ∷ ("cuGraphReleaseUserObject", "cuGraphReleaseUserObject_intercepted")
    ∷ ("cuGraphNodeSetEnabled", "cuGraphNodeSetEnabled_intercepted")
    ∷ ("cuGraphNodeGetEnabled", "cuGraphNodeGetEnabled_intercepted")
    ∷ ("cuGraphInstantiateWithParams", "cuGraphInstantiateWithParams_intercepted")
    ∷ ("cuGraphExecGetFlags", "cuGraphExecGetFlags_intercepted")
    ∷ ("cuGraphAddNode", "cuGraphAddNode_intercepted")
    ∷ ("cuGraphNodeSetParams", "cuGraphNodeSetParams_intercepted")
    ∷ ("cuGraphExecNodeSetParams", "cuGraphExecNodeSetParams_intercepted")
    ∷ ("cuGraphConditionalHandleCreate", "cuGraphConditionalHandleCreate_intercepted")
    ∷ ("cuDeviceRegisterAsyncNotification", "cuDeviceRegisterAsyncNotification_intercepted")
    ∷ ("cuDeviceUnregisterAsyncNotification", "cuDeviceUnregisterAsyncNotification_intercepted")
    ∷ ("cuLibraryLoadData", "cuLibraryLoadData_intercepted")
    ∷ ("cuLibraryLoadFromFile", "cuLibraryLoadFromFile_intercepted")
    ∷ ("cuLinkAddData", "cuLinkAddData_intercepted")
    ∷ ("cuLinkAddFile", "cuLinkAddFile_intercepted")
    ∷ ("cuLinkComplete", "cuLinkComplete_intercepted")
    ∷ ("cuLinkDestroy", "cuLinkDestroy_intercepted")
    ∷ ("cuMemPoolImportFromShareableHandle", "cuMemPoolImportFromShareableHandle_intercepted")
    ∷ ("cuGLCtxCreate", "cuGLCtxCreate_intercepted")
    ∷ ("cuGLInit", "cuGLInit_intercepted")
    ∷ []

unfoldable pub dlsym_rows_5 : List (String × String)
dlsym_rows_5 =
    ("cuProfilerStart", "cuProfilerStart_intercepted")
    ∷ ("cuProfilerStop", "cuProfilerStop_intercepted")
    ∷ ("cuGraphInstantiateWithFlags", "cuGraphInstantiateWithFlags_intercepted")
    ∷ ("cuGraphKernelNodeGetAttribute", "cuGraphKernelNodeGetAttribute_intercepted")
    ∷ ("cuGraphKernelNodeSetAttribute", "cuGraphKernelNodeSetAttribute_intercepted")
    ∷ ("cuUserObjectCreate", "cuUserObjectCreate_intercepted")
    ∷ ("cuOccupancyMaxPotentialBlockSize", "cuOccupancyMaxPotentialBlockSize")
    ∷ []
