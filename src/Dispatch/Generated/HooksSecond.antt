-- ===== src/Dispatch/Generated/HooksSecond.antt =====
-- util/generated_hooks.cpp: the CU_HOOK_DRIVER_FUNC lines, (name, symbol), the second half.
use Prim.Native.String.{String}
use fan_master_thesis.Base.{List, [], ◌∷◌}

unfoldable pub generated_hooks_3 : List (String × String)
generated_hooks_3 =
    ("cuDestroyExternalSemaphore_intercepted", "cuDestroyExternalSemaphore")
    ∷ ("cuDeviceGetNvSciSyncAttributes_intercepted", "cuDeviceGetNvSciSyncAttributes")
    ∷ ("cuLaunchKernel_intercepted", "cuLaunchKernel")
    ∷ ("cuLaunchCooperativeKernel_intercepted", "cuLaunchCooperativeKernel")
    ∷ ("cuLaunchCooperativeKernelMultiDevice_intercepted", "cuLaunchCooperativeKernelMultiDevice")
    ∷ ("cuLaunchHostFunc_intercepted", "cuLaunchHostFunc")
    ∷ ("cuLaunchKernelEx_intercepted", "cuLaunchKernelEx")
    ∷ ("cuEventCreate_intercepted", "cuEventCreate")
    ∷ ("cuEventRecord_intercepted", "cuEventRecord")
    ∷ ("cuEventRecordWithFlags_intercepted", "cuEventRecordWithFlags")
    ∷ ("cuEventQuery_intercepted", "cuEventQuery")
    ∷ ("cuEventSynchronize_intercepted", "cuEventSynchronize")
    ∷ ("cuEventDestroy_intercepted", "cuEventDestroy")
    ∷ ("cuEventElapsedTime_intercepted", "cuEventElapsedTime")
    ∷ ("cuStreamWaitValue32_intercepted", "cuStreamWaitValue32")
    ∷ ("cuStreamWriteValue32_intercepted", "cuStreamWriteValue32")
    ∷ ("cuStreamWaitValue64_intercepted", "cuStreamWaitValue64")
    ∷ ("cuStreamWriteValue64_intercepted", "cuStreamWriteValue64")
    ∷ ("cuStreamBatchMemOp_intercepted", "cuStreamBatchMemOp")
    ∷ ("cuStreamCreate_intercepted", "cuStreamCreate")
    ∷ ("cuStreamCreateWithPriority_intercepted", "cuStreamCreateWithPriority")
    ∷ ("cuStreamGetPriority_intercepted", "cuStreamGetPriority")
    ∷ ("cuStreamGetFlags_intercepted", "cuStreamGetFlags")
    ∷ ("cuStreamGetCtx_intercepted", "cuStreamGetCtx")
    ∷ ("cuStreamGetId_intercepted", "cuStreamGetId")
    ∷ ("cuStreamDestroy_intercepted", "cuStreamDestroy")
    ∷ ("cuStreamWaitEvent_intercepted", "cuStreamWaitEvent")
    ∷ ("cuStreamAddCallback_intercepted", "cuStreamAddCallback")
    ∷ ("cuStreamSynchronize_intercepted", "cuStreamSynchronize")
    ∷ ("cuStreamQuery_intercepted", "cuStreamQuery")
    ∷ ("cuStreamAttachMemAsync_intercepted", "cuStreamAttachMemAsync")
    ∷ ("cuStreamCopyAttributes_intercepted", "cuStreamCopyAttributes")
    ∷ ("cuStreamGetAttribute_intercepted", "cuStreamGetAttribute")
    ∷ ("cuStreamSetAttribute_intercepted", "cuStreamSetAttribute")
    ∷ ("cuDeviceCanAccessPeer_intercepted", "cuDeviceCanAccessPeer")
    ∷ ("cuCtxEnablePeerAccess_intercepted", "cuCtxEnablePeerAccess")
    ∷ ("cuCtxDisablePeerAccess_intercepted", "cuCtxDisablePeerAccess")
    ∷ ("cuIpcGetEventHandle_intercepted", "cuIpcGetEventHandle")
    ∷ ("cuIpcOpenEventHandle_intercepted", "cuIpcOpenEventHandle")
    ∷ ("cuIpcGetMemHandle_intercepted", "cuIpcGetMemHandle")
    ∷ ("cuIpcOpenMemHandle_intercepted", "cuIpcOpenMemHandle")
    ∷ ("cuIpcCloseMemHandle_intercepted", "cuIpcCloseMemHandle")
    ∷ ("cuGraphicsUnregisterResource_intercepted", "cuGraphicsUnregisterResource")
    ∷ ("cuGraphicsMapResources_intercepted", "cuGraphicsMapResources")
    ∷ ("cuGraphicsUnmapResources_intercepted", "cuGraphicsUnmapResources")
    ∷ ("cuGraphicsResourceSetMapFlags_intercepted", "cuGraphicsResourceSetMapFlags")
    ∷ ("cuGraphicsSubResourceGetMappedArray_intercepted", "cuGraphicsSubResourceGetMappedArray")
    ∷ (
      "cuGraphicsResourceGetMappedMipmappedArray_intercepted",
      "cuGraphicsResourceGetMappedMipmappedArray",
    )
    ∷ ("cuGraphicsResourceGetMappedPointer_intercepted", "cuGraphicsResourceGetMappedPointer")
    ∷ ("cuGetExportTable_intercepted", "cuGetExportTable")
    ∷ (
      "cuOccupancyMaxActiveBlocksPerMultiprocessorWithFlags_intercepted",
      "cuOccupancyMaxActiveBlocksPerMultiprocessorWithFlags",
    )
    ∷ (
      "cuOccupancyAvailableDynamicSMemPerBlock_intercepted",
      "cuOccupancyAvailableDynamicSMemPerBlock",
    )
    ∷ ("cuOccupancyMaxPotentialClusterSize_intercepted", "cuOccupancyMaxPotentialClusterSize")
    ∷ ("cuOccupancyMaxActiveClusters_intercepted", "cuOccupancyMaxActiveClusters")
    ∷ ("cuMemAdvise_intercepted", "cuMemAdvise")
    ∷ ("cuMemPrefetchAsync_intercepted", "cuMemPrefetchAsync")
    ∷ ("cuMemRangeGetAttribute_intercepted", "cuMemRangeGetAttribute")
    ∷ ("cuMemRangeGetAttributes_intercepted", "cuMemRangeGetAttributes")
    ∷ ("cuGetErrorString_intercepted", "cuGetErrorString")
    ∷ ("cuGetErrorName_intercepted", "cuGetErrorName")
    ∷ ("cuGraphCreate_intercepted", "cuGraphCreate")
    ∷ ("cuGraphAddKernelNode_intercepted", "cuGraphAddKernelNode")
    ∷ ("cuGraphKernelNodeGetParams_intercepted", "cuGraphKernelNodeGetParams")
    ∷ ("cuGraphKernelNodeSetParams_intercepted", "cuGraphKernelNodeSetParams")
    ∷ ("cuGraphAddMemcpyNode_intercepted", "cuGraphAddMemcpyNode")
    ∷ ("cuGraphMemcpyNodeGetParams_intercepted", "cuGraphMemcpyNodeGetParams")
    ∷ ("cuGraphMemcpyNodeSetParams_intercepted", "cuGraphMemcpyNodeSetParams")
    ∷ ("cuGraphAddMemsetNode_intercepted", "cuGraphAddMemsetNode")
    ∷ ("cuGraphMemsetNodeGetParams_intercepted", "cuGraphMemsetNodeGetParams")
    ∷ ("cuGraphMemsetNodeSetParams_intercepted", "cuGraphMemsetNodeSetParams")
    ∷ ("cuGraphAddHostNode_intercepted", "cuGraphAddHostNode")
    ∷ ("cuGraphHostNodeGetParams_intercepted", "cuGraphHostNodeGetParams")
    ∷ []

unfoldable pub generated_hooks_4 : List (String × String)
generated_hooks_4 =
    ("cuGraphHostNodeSetParams_intercepted", "cuGraphHostNodeSetParams")
    ∷ ("cuGraphAddChildGraphNode_intercepted", "cuGraphAddChildGraphNode")
    ∷ ("cuGraphChildGraphNodeGetGraph_intercepted", "cuGraphChildGraphNodeGetGraph")
    ∷ ("cuGraphAddEmptyNode_intercepted", "cuGraphAddEmptyNode")
    ∷ ("cuGraphAddEventRecordNode_intercepted", "cuGraphAddEventRecordNode")
    ∷ ("cuGraphEventRecordNodeGetEvent_intercepted", "cuGraphEventRecordNodeGetEvent")
    ∷ ("cuGraphEventRecordNodeSetEvent_intercepted", "cuGraphEventRecordNodeSetEvent")
    ∷ ("cuGraphAddEventWaitNode_intercepted", "cuGraphAddEventWaitNode")
    ∷ ("cuGraphEventWaitNodeGetEvent_intercepted", "cuGraphEventWaitNodeGetEvent")
    ∷ ("cuGraphEventWaitNodeSetEvent_intercepted", "cuGraphEventWaitNodeSetEvent")
    ∷ (
      "cuGraphAddExternalSemaphoresSignalNode_intercepted",
      "cuGraphAddExternalSemaphoresSignalNode",
    )
    ∷ (
      "cuGraphExternalSemaphoresSignalNodeGetParams_intercepted",
      "cuGraphExternalSemaphoresSignalNodeGetParams",
    )
    ∷ (
      "cuGraphExternalSemaphoresSignalNodeSetParams_intercepted",
      "cuGraphExternalSemaphoresSignalNodeSetParams",
    )
    ∷ ("cuGraphAddExternalSemaphoresWaitNode_intercepted", "cuGraphAddExternalSemaphoresWaitNode")
    ∷ (
      "cuGraphExternalSemaphoresWaitNodeGetParams_intercepted",
      "cuGraphExternalSemaphoresWaitNodeGetParams",
    )
    ∷ (
      "cuGraphExternalSemaphoresWaitNodeSetParams_intercepted",
      "cuGraphExternalSemaphoresWaitNodeSetParams",
    )
    ∷ (
      "cuGraphExecExternalSemaphoresSignalNodeSetParams_intercepted",
      "cuGraphExecExternalSemaphoresSignalNodeSetParams",
    )
    ∷ (
      "cuGraphExecExternalSemaphoresWaitNodeSetParams_intercepted",
      "cuGraphExecExternalSemaphoresWaitNodeSetParams",
    )
    ∷ ("cuGraphAddMemAllocNode_intercepted", "cuGraphAddMemAllocNode")
    ∷ ("cuGraphMemAllocNodeGetParams_intercepted", "cuGraphMemAllocNodeGetParams")
    ∷ ("cuGraphAddMemFreeNode_intercepted", "cuGraphAddMemFreeNode")
    ∷ ("cuGraphMemFreeNodeGetParams_intercepted", "cuGraphMemFreeNodeGetParams")
    ∷ ("cuDeviceGraphMemTrim_intercepted", "cuDeviceGraphMemTrim")
    ∷ ("cuDeviceGetGraphMemAttribute_intercepted", "cuDeviceGetGraphMemAttribute")
    ∷ ("cuDeviceSetGraphMemAttribute_intercepted", "cuDeviceSetGraphMemAttribute")
    ∷ ("cuGraphClone_intercepted", "cuGraphClone")
    ∷ ("cuGraphNodeFindInClone_intercepted", "cuGraphNodeFindInClone")
    ∷ ("cuGraphNodeGetType_intercepted", "cuGraphNodeGetType")
    ∷ ("cuGraphGetNodes_intercepted", "cuGraphGetNodes")
    ∷ ("cuGraphGetRootNodes_intercepted", "cuGraphGetRootNodes")
    ∷ ("cuGraphGetEdges_intercepted", "cuGraphGetEdges")
    ∷ ("cuGraphNodeGetDependencies_intercepted", "cuGraphNodeGetDependencies")
    ∷ ("cuGraphNodeGetDependentNodes_intercepted", "cuGraphNodeGetDependentNodes")
    ∷ ("cuGraphAddDependencies_intercepted", "cuGraphAddDependencies")
    ∷ ("cuGraphRemoveDependencies_intercepted", "cuGraphRemoveDependencies")
    ∷ ("cuGraphDestroyNode_intercepted", "cuGraphDestroyNode")
    ∷ ("cuGraphInstantiate_intercepted", "cuGraphInstantiate")
    ∷ ("cuGraphUpload_intercepted", "cuGraphUpload")
    ∷ ("cuGraphLaunch_intercepted", "cuGraphLaunch")
    ∷ ("cuGraphExecDestroy_intercepted", "cuGraphExecDestroy")
    ∷ ("cuGraphDestroy_intercepted", "cuGraphDestroy")
    ∷ ("cuStreamBeginCapture_intercepted", "cuStreamBeginCapture")
    ∷ ("cuStreamBeginCaptureToGraph_intercepted", "cuStreamBeginCaptureToGraph")
    ∷ ("cuStreamEndCapture_intercepted", "cuStreamEndCapture")
    ∷ ("cuStreamIsCapturing_intercepted", "cuStreamIsCapturing")
    ∷ ("cuStreamGetCaptureInfo_intercepted", "cuStreamGetCaptureInfo")
    ∷ ("cuStreamUpdateCaptureDependencies_intercepted", "cuStreamUpdateCaptureDependencies")
    ∷ ("cuGraphExecKernelNodeSetParams_intercepted", "cuGraphExecKernelNodeSetParams")
    ∷ ("cuGraphExecMemcpyNodeSetParams_intercepted", "cuGraphExecMemcpyNodeSetParams")
    ∷ ("cuGraphExecMemsetNodeSetParams_intercepted", "cuGraphExecMemsetNodeSetParams")
    ∷ ("cuGraphExecHostNodeSetParams_intercepted", "cuGraphExecHostNodeSetParams")
    ∷ ("cuGraphExecChildGraphNodeSetParams_intercepted", "cuGraphExecChildGraphNodeSetParams")
    ∷ ("cuGraphExecEventRecordNodeSetEvent_intercepted", "cuGraphExecEventRecordNodeSetEvent")
    ∷ ("cuGraphExecEventWaitNodeSetEvent_intercepted", "cuGraphExecEventWaitNodeSetEvent")
    ∷ ("cuThreadExchangeStreamCaptureMode_intercepted", "cuThreadExchangeStreamCaptureMode")
    ∷ ("cuGraphExecUpdate_intercepted", "cuGraphExecUpdate")
    ∷ ("cuGraphKernelNodeCopyAttributes_intercepted", "cuGraphKernelNodeCopyAttributes")
    ∷ ("cuGraphDebugDotPrint_intercepted", "cuGraphDebugDotPrint")
    ∷ ("cuUserObjectRetain_intercepted", "cuUserObjectRetain")
    ∷ ("cuUserObjectRelease_intercepted", "cuUserObjectRelease")
    ∷ ("cuGraphRetainUserObject_intercepted", "cuGraphRetainUserObject")
    ∷ ("cuGraphReleaseUserObject_intercepted", "cuGraphReleaseUserObject")
    ∷ ("cuGraphNodeSetEnabled_intercepted", "cuGraphNodeSetEnabled")
    ∷ ("cuGraphNodeGetEnabled_intercepted", "cuGraphNodeGetEnabled")
    ∷ ("cuGraphInstantiateWithParams_intercepted", "cuGraphInstantiateWithParams")
    ∷ ("cuGraphExecGetFlags_intercepted", "cuGraphExecGetFlags")
    ∷ ("cuGraphAddNode_intercepted", "cuGraphAddNode")
    ∷ ("cuGraphNodeSetParams_intercepted", "cuGraphNodeSetParams")
    ∷ ("cuGraphExecNodeSetParams_intercepted", "cuGraphExecNodeSetParams")
    ∷ ("cuGraphConditionalHandleCreate_intercepted", "cuGraphConditionalHandleCreate")
    ∷ ("cuDeviceRegisterAsyncNotification_intercepted", "cuDeviceRegisterAsyncNotification")
    ∷ ("cuDeviceUnregisterAsyncNotification_intercepted", "cuDeviceUnregisterAsyncNotification")
    ∷ []
