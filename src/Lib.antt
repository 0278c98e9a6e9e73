-- ===== src/Lib.antt =====
-- A remoting layer for the CUDA driver, as a library of definitions that follow its C++ code and
-- of theorems about them.
--
-- The program. A guest program is linked with a library that stands in for the CUDA driver. Its
-- hooks flatten each call into a message (CUDAClient, Serializer), send it over a socket
-- (VsockHandle), and wait for a reply (Response). On the host a GPUInstance reads the message
-- into its Deserializer, chooses a branch by the function's name, calls the real driver with
-- pointers to locals of its own in place of the guest's, and sends the reply back, from which
-- the guest's hook fills the caller's memory. Data that is too large for a message goes through
-- memory that both sides map (VirtualGPU, PinnedMemory), for which the host translates the
-- guest's addresses. The guest's library is found by its own dlsym and by
-- getProcAddressBySymbol, and it reads PTX files to know how many arguments a kernel takes
-- (CUFuncProto).
--
-- Base: numbers, lists, byte words, and memory as a list of bytes in which a write or a read out
-- of range is `none`.
-- Stream: interception/stream.h. Stream/Items is the data that the overloads of operator<< tell
-- apart, and the wire form. Stream/Serializer, Stream/Deserializer and Stream/Response follow
-- the classes of those names: `put`, `put_all`, `get`, `get_all` are the operators, the other
-- functions have the names of the methods. A pointer into a receive buffer is an offset.
-- Vsock: class VsockHandle of interception/stream.h; `transmit` and `receive` over a kernel that
-- answers each system call. The loops have the size of the data as fuel, since each round that
-- goes on moves a byte at least.
-- Pinned: class PinnedMemory of interception/stream.h, with is_pinned and convert_pin of
-- interception/gpu_instance.h in Pinned/Convert. Addresses and sizes wrap at 2 ^ 64.
-- Vgpu: class VirtualGPU (Vgpu/Mapped) and vsock::VirtualGPU (Vgpu/Growing) of
-- interception/stream.h.
-- Dispatch: interception/interception.cpp. The rows of the macros TRY_DLSYM, TRY_INTERCEPT and
-- CU_HOOK_DRIVER_FUNC stand in Dispatch/DlsymFirst to Dispatch/HooksSecond; `dlsym`,
-- `proc_address` and `hook_symbol` are what the macros make of them; of a hook that passes calls
-- on, `hook_symbol` has the function that it calls, and its parameter list is left out. What the
-- preprocessor makes of a name is a parameter, `expand`. Dispatch/Generated has the tables of
-- util/generated_dispatch.cpp and util/generated_hooks.cpp, from which those of interception.cpp
-- were made, and compares their names with these.
-- Runtime: interception/interception_runtime.c, a library for the CUDA runtime that only passes
-- calls on. Its lines stand in Runtime/RowsOne to Runtime/RowsFour, the functions that
-- INTERCEPT_RT makes of them in Runtime; what the preprocessor makes of a name, what dlsym finds
-- and the library behind are parameters.
-- Ptx: class CUFuncProto of interception/compiler.h, over text streams (Ptx/Input) and the two
-- regular expressions (Ptx/Pattern); Ptx/Source has the PTX files of which it is said what is
-- collected. `convert` and `initialize` take a number of rounds as fuel, since the code need not
-- end.
-- Gpu: interception/gpu_instance.h and interception/gpu_instance.cpp. Gpu/Params and
-- Gpu/Signatures hold the parameters of the driver's functions, Gpu/Instance the state and the
-- steps of a branch, Gpu/Handlers and Gpu/Runtime the branches that do more, Gpu/Chain the chain
-- of comparisons and implement_cuda_function, Gpu/HostMemory a sequence of calls of
-- cuMemHostAlloc, and Gpu/Life the constructor and the destructor. The driver is a parameter, a
-- function of the call and of its own state; its outcome says which results it has written, and
-- what stands in the locals of the host for them.
-- Server: class CUDAServer of interception/cuda_server.cpp, as a step relation over the
-- connections, each with a GPUInstance of its own and all with the same driver; a round of a
-- thread is one step.
-- Shm: interception/shared_memory_manager.h, an older transport: Shm/Scalars (ScalarArgs),
-- Shm/Text (StringArg), Shm/Device (VirtualGPU), Shm/Buffer (CommandBuffer and ResponseBuffer,
-- one function for each step that the other side may come between), and Shm/Calls, the
-- interleavings of a client and a host as a step relation.
-- Client: class CUDAClient of interception/cuda_client.h.
-- Remote: the hooks of CU_HOOK_REMOTE in interception/interception.cpp, in Remote/Table as a
-- table with the types of their arguments, and the hand-written ones in Remote/Hooks (copies,
-- functions, kernels) and Remote/Modules (modules, pinned memory, occupancy, export tables, the
-- CUDA runtime), from the guest's call through both messages and back. The specification is the
-- driver called on the spot, which leaves a result alone that it does not write. The state of
-- the driver in a copy takes in the file of the shared window. Remote/Request and Remote/Reply
-- are the two directions, Remote/Branches puts them together around a branch of the host.
-- Examples: the theorems at concrete inputs.
--
-- Not modelled: opening and closing sockets and files, shared-memory segments and semaphores,
-- the signal handler of interception/cuda_server.cpp, and the printing everywhere (plain I/O);
-- interception/host.cpp and interception/client.cpp, which try a socket out; the parameter lists
-- of the hooks that pass calls on; gpu_instance.h in the root, a sketch that nothing includes;
-- the Python scripts of util; tests; and the endless loop of GPUInstance::handle. In the calls
-- of Remote, a `read` of the host is taken to return what the guest sent in one piece, and its
-- `send` to take the whole reply, which the code does not look at.
pub mod Base
pub mod Shm
pub mod Stream
pub mod Vsock
pub mod Pinned
pub mod Vgpu
pub mod Dispatch
pub mod Ptx
pub mod Gpu
pub mod Runtime
pub mod Server
pub mod Client
pub mod Remote
pub mod Examples
