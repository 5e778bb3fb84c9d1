-- ===== src/Lib.antt =====
-- MCsim, a simulator of DRAM memory controllers. A requestor's access enters the controller of a
-- channel as a request, waits in a request queue, is picked by a request scheduling policy, is cracked
-- by a command generator into DRAM commands, and these wait in command queues until a command
-- scheduling policy sends them to the memory device, at the times that the device's constraints allow.
--
-- The parts, and where each is modelled (file of this library: files of the repository):
-- - Packet: `BusPacket` and `Request` (src/BusPacket.h, src/Request.h).
-- - CommandQueue: the methods of `CommandQueue` (src/CommandQueue.cpp). CommandQueue/WellFormed has its
--   invariant, and CommandQueue/Lanes sequences of calls, one step for each call of the schedulers.
-- - RequestQueue: `RequestQueue` and its `WriteQueue` (src/RequestQueue.h, src/RequestQueue.cpp), with the
--   calls on the writes that are kept apart in RequestQueue/Writes.
-- - CommandGenerator: the base class and the open-page and close-page generators
--   (src/CommandGenerator.cpp, generalScheduler/CommandGenerator_OPEN.h and _CLOSE.h).
-- - RequestScheduler: `isRowHit`, `scheduleFR`, `isSchedulable`, `updateRowTable` and the FR-FCFS policy
--   (src/RequestScheduler.cpp, system/FRFCFS/RequestScheduler_FRFCFS.h). RequestScheduler/OpenPage has
--   the contract of a DRAM bank, which is the specification that the generated commands are checked
--   against. RequestScheduler/Slots is the policy of system/PMC/RequestScheduler_PMC.h,
--   RequestScheduler/RoundRobin that of generalScheduler/RequestScheduler_RR.h, RequestScheduler/Direct that of
--   generalScheduler/RequestScheduler_DIRECT.h, and RequestScheduler/Oldest that of
--   system/FCFS/RequestScheduler_FCFS.h. RequestScheduler/Blacklist is `scheduleBLISS`
--   and the policy of system/BLISS/RequestScheduler_BLISS.h. RequestScheduler/RoundRobin/Limited is the `isSchedulable` of
--   system/RTMem/RequestScheduler_RTMem.h. RequestScheduler/Rotation has the cyclic order of the first three,
--   and RequestQueue/Turns what all four do with the buffers of the requestors.
-- - RefreshMachine: `RefreshMachine` (src/RefreshMachine.h).
-- - CommandScheduler: the base class of the command policies (src/CommandScheduler.cpp).
--   CommandScheduler/Push and CommandScheduler/Fcfs are the policies of
--   generalScheduler/CommandScheduler_PUSH.h and _FCFS.h, CommandScheduler/CasFirst that of
--   system/RTMem/CommandScheduler_RTMem.h, and CommandScheduler/ReadyFifo that of
--   system/DCmc/CommandScheduler_DCmc.h.
-- - AddressMapping: the cutting of an address into rank, bank, row and the like (src/AddressMapping.cpp).
-- - MemoryController (src/MemoryController.cpp), which calls all of the above: Decode has `decodeQueue`
--   and `queueNumber`, Enqueue `addRequest` and `enqueueCommand`, Update `update`, State `receiveData` and
--   `sendData`, ConfigFile the reader of the configuration file, Connect `connectMemoryDevice`; Requests,
--   Commands, Returns, Update/InStep and Update/WriteLatency have what is proved of them.
-- - MemoryDevice: the base class of the devices (src/MemoryDevice.cpp), and RamulatorDdr3 the DDR3 device over
--   the DRAM library (src/Ramulator_DDR3.h).
-- - MemorySystem: a channel, which is a controller and its device, and the system of several channels
--   (src/MemorySystem.cpp, src/MultiChannelMemorySystem.cpp).
-- - Requestor: a processor that replays a trace (src/Requestor.cpp).
-- - ClockDomain: the crosser between the clocks of the processor and of the memory (src/ClockDomain.cpp).
-- - Common: Boolean tests, vectors as lists, `std::map` as partial functions, machine words, and
--   `Outcome`, the ways in which a call ends: a value, `abort()`, or a step that C++ leaves undefined.
-- - Tests: the theorems at concrete inputs.
--
-- State and numbers. An object is a record of its fields, a method is a function from the record and
-- the arguments to the record and the result. Numbers are natural numbers, with the wrap-around of
-- `unsigned` and `unsigned long` written out (`u32`, `u64`, `sub_u32`) where the code computes. A map that
-- reads a missing key creates it with the default; the model reads the default. Two loops run on
-- fuel. In `ClockDomainCrosser::update` the first counter is fuel enough, as the second counter grows by
-- at least one in a round; in `log2` the number itself is, as it is halved in each round. That the fuel is
-- enough is part of what is proved of both. Every other loop goes over a list or counts
-- down a number that the code computes before it.
--
-- Parameters. To the controller the memory device is `Device`: its timing between two commands, its
-- readiness check and its bus. To the request policies `isSchedulable` is a function that answers and
-- changes the generator. In `update` the two scheduling policies are the record `Policies`. In
-- `add_request` the address mapping is a function on requests. The mapping of AddressMapping is not put there:
-- with a row or a column in its format it writes past `addressMap`, which AddressMapping keeps as a list of
-- these writes beside the request. In RamulatorDdr3 the DRAM library's channel is `Dram`, and its timing entry a record of
-- numbers. In Requestor the memory system is `Memory`, and a line of the trace is what its text says.
--
-- Bounds. The decimal value of a configuration entry is cut at the greatest `unsigned`, as reading it
-- into one does. A shift by 32 or more, a read past a vector and a missing pointer are the outcome
-- `undefined_behaviour`. The two variables that `scheduleBLISS` reads before it sets them are
-- arguments of `schedule_bliss`, for the values that they happen to hold.
--
-- Not modelled: trace output and printed statistics; destruction of objects; the lookup of the schedulers
-- by name; the policies of the other published controllers under system/; the DDR4 and DSARP devices; the text of the trace and the
-- command line; the copy of Ramulator under dram/ and of MacSim under IntegrationWithMacSim/, which are
-- other projects.
pub mod Common
pub mod Packet
pub mod AddressMapping
pub mod CommandQueue
pub mod RequestQueue
pub mod CommandGenerator
pub mod RequestScheduler
pub mod RefreshMachine
pub mod CommandScheduler
pub mod MemoryController
pub mod MemorySystem
pub mod Requestor
pub mod MemoryDevice
pub mod RamulatorDdr3
pub mod ClockDomain
pub mod Tests
