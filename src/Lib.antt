-- ===== src/Lib.antt =====
-- dogesyncer: a verification library for the parts of the synchroniser that decide the state of the
-- chain: the Ethereum virtual machine, the execution of transactions and blocks, the accounts that they
-- change and the trie that holds them; and the queue of blocks and the filter of logs beside it.
--
-- The parts of the program and the files that model them, with paths from the repository's root:
--   Chain/Forks: chain/params.go, the forks and when they are active (`Fork`, `Forks`, `ForksInTime`,
--     `Active`, `At`).
--   Runtime: state/runtime/runtime.go, contracts, results and the host (`Contract`,
--     `ExecutionResult`, `Host`, `UpdateGasUsed`). The host is a record of functions on a state `W` of
--     its own. The hashing and address functions of the crypto packages are fields beside its methods.
--   Evm/State and its children: state/runtime/evm/state.go, the state of the machine, its stack, gas
--     and memory. An instruction is a state-passing action that goes on, returns early or panics.
--   Evm/Word: the arithmetic of state/runtime/evm/instructions.go on words, numbers below 2^256.
--   Evm/Bitmap: state/runtime/evm/bitmap.go, the bitmap of the jump destinations.
--   Evm/Ops and its children: state/runtime/evm/instructions.go, a definition `op_x` for each `opX`.
--   Evm/Dispatch: state/runtime/evm/dispatch_table.go, the table of the handlers.
--   Evm/Run: the loop of state/runtime/evm/state.go and `EVM.Run` of state/runtime/evm/evm.go.
--   State/Gas: state/executor.go, the gas that a transaction pays before it runs.
--   State/Txn: state/txn.go and state/state.go, the accounts that transactions change in memory over
--     what is committed (Txn/Slots: storage, Txn/Status: the refund of a write, Txn/Accounts: nonces,
--     code, logs and removal); `transfer` of state/executor.go beside its proofs.
--   Evm/Engine: state/runtime/evm/evm.go, the machine as one of the runtimes of a transition.
--   State/Precompiled: state/runtime/precompiled, the precompiled contracts as a runtime beside the
--     machine; Precompiled/ModExp: modexp.go, the power of big numbers.
--   State/Call: state/executor.go, the calls (`run`, `applyCall`, `applyCreate`, `Callx`,
--     `Selfdestruct`) and `Transition` as the host of the machine, which closes the recursion between
--     the two: a level for each depth of nested calls, 1026 of them, since a deeper call fails.
--   State/Transition: state/executor.go, `apply` and `Apply` with their checks and payments.
--   State/Transition/Block: state/executor.go, `Write`, the logs of the bridge and `ProcessBlock`.
--   Protocol/Queue: protocol/pq.go, the priority queue of the blocks that wait to be written, a heap in a
--     slice whose loops run on fuel for every slot.
--   Types/Bloom: types/receipt.go, the Bloom filter of logs.
--   Trie/Encoding: state/immutable-trie/encoding.go, the compact encoding of the keys of the trie.
--   Trie/Node: state/immutable-trie/trie.go and storage.go, the nodes and the reading of a stored one.
--   Trie/Edit: state/immutable-trie/trie.go, `lookup`, `insert` and `delete` on fuel, three rounds for
--     each nibble and three more; Edit/Finds says what a node holds, and its
--     siblings follow an insertion (Edit/Put) and a deletion (Edit/Removal) through the nodes.
--   Trie/Map: the trie read as a map from keys of bytes; Trie/Commit: the writes of `Commit` into the
--     storage trie of an account.
--   Blockchain/GasLimit: blockchain/blockchain.go, the gas limit of the next block.
--
-- `EVM.Run` starts the machine on a contract, `step` looks an instruction up in the table and runs its
-- handler, and the handlers of the calls and creations build a contract and hand it to the host's
-- `callx`, which runs the machine again. The proofs about handlers go through `Keeps`
-- (Evm/State/Keeps): a relation between the states before and after that every elementary action
-- keeps, lifted to the handlers by `search`, to the table (Evm/Dispatch/Keeps) and to the loop.
--
-- `ProcessBlock` writes one transaction after the other, `Apply` checks and pays one and starts its call
-- or creation, and that runs in the first runtime that can run it, with the transition as its host. A
-- runtime is sound (Evm/Engine/Sound) if it gives back no more gas than it was given, keeps what every
-- operation of its host keeps of the state, leaves the state the same for a static contract, and reads
-- of `Callx` its answers to contracts one deeper than its own only.
--
-- Machine integers: gas and sizes are uint64 with the wrap-around written out as `% 2 ^ 64`; words are
-- reduced modulo 2^256 where the source does so; the signed instructions go through integers.
--
-- Fuel: the loop `run` takes one unit for each instruction. From EIP-150 on every instruction that lets
-- the run go on takes gas, the calls' included, so that more fuel than gas is enough; before EIP-150 a
-- wrap-around in the gas of a call stands in the way. The host of a transaction has 1026 levels of
-- nested calls: a call from outside has depth 1, and from depth 1026 on a call fails at once. The
-- operations of the trie have three rounds for each nibble of the key and three more, where a round
-- passes a nibble, resolves a stored node or turns into a new branch; the loops of the heap have a
-- round for every slot. The other loops recurse on a list, on the length
-- of the code or on the bits of a number.
--
-- Not modelled: the tracing calls of the machine, which read its state only; the pools of states and
-- of big integers, whose one trace is the capacity of the memory that a run starts with (a parameter);
-- the names of the opcodes; the growth policy of Go's slices (a parameter). Parameters of the execution of
-- transactions are the recovery of a sender from a signature, the hash of a transaction, the parsing of
-- the bridge's events, the commit behind the state interface, and what the cryptographic packages
-- compute. Of the trie the hashing, the epochs and the cache of loaded nodes are left out, which share
-- and reuse nodes of the same entries; of the queue its locks and the waiting of callers.
-- A panic of a precompiled contract is a result with an error of the model's own, on which the frame
-- that made the call panics; a transaction that calls such a contract itself fails with that error,
-- where the source has nothing that recovers. Of the rest of the program the network, RPC, GraphQL,
-- database, secrets, tracer and generated code are left out as input and output or bindings.
pub mod Prelude
pub mod Chain
pub mod Runtime
pub mod Evm
pub mod State
pub mod Protocol
pub mod Types
pub mod Trie
pub mod Blockchain
