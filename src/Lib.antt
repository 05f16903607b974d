-- ===== src/Lib.antt =====
-- A model of the bridge between Solana and DecentralChain, of the TypeScript that runs off the
-- chains, and what is proved of it.
--
-- A deposit on Solana becomes a message whose id the validators and the prover compute; a committee
-- of validators signs it, or, for large amounts, a Merkle root over many ids is proved in zero
-- knowledge. A burn on DecentralChain becomes an unlock message that the committee signs. Watchers
-- of both chains hold events back until they are final, and a limiter bounds what goes out. A
-- monitor watches the balances of both sides. The parts and their files:
--   * Base: names, tests, lists, results, texts, maps and sets that all parts share.
--     Base.Maps has the lemmas on maps with string keys.
--   * Bytes: byte buffers, little- and big-endian numbers, and messages laid out field by field;
--     Bytes.Regions is about reading one region of a buffer after writing another.
--   * Encoding: libs/encoding-ts/index.ts, the canonical encodings and the public inputs.
--   * MessageIds: computeMessageId of zk/prover/src/message.ts and validator/src/zk/zk-utils.ts.
--   * Merkle: MerkleTree of zk/prover/src/merkle.ts, the hash helpers of zk/prover/src/message.ts, and
--     in Merkle.Dense buildMerkleTree and getMerkleProof of validator/src/zk/zk-utils.ts.
--   * Bits: bytesToBitsLE, numberToBitsLE and hashToFieldElements of validator/src/zk/zk-utils.ts.
--   * Serializer: zk/prover/src/serializer.ts and serializeInputsForRIDE of the validator.
--   * Messages: the canonical messages of validator/src/consensus/engine.ts, and
--     validator/src/utils/dcc-ids.ts.
--   * Consensus: ConsensusEngine of validator/src/consensus/engine.ts. An operation takes the engine
--     and gives the engine after it and the list of what it emits; Consensus.State has the state,
--     Consensus.Deciding and Consensus.Attesting the operations; proposeAttestation is two of
--     them, before and after the await of its signature; Consensus.Runs lets all operations and
--     timers follow one another in any order.
--   * RateLimiter: validator/src/utils/rate-limiter.ts, with the state file as a field.
--   * Fees: validator/src/utils/fee-calculator.ts.
--   * SolanaWatcher: validator/src/watchers/solana-watcher.ts, the decoder in SolanaWatcher, the
--     parser of logs, the poll and the first cursor in SolanaWatcher.Polling, the finality loop in
--     SolanaWatcher.Finality. SolanaWatcher.Divergence has the event as
--     programs/sol-bridge-lock/src/events.rs declares it.
--   * DccWatcher: validator/src/watchers/dcc-watcher.ts, the block scan in DccWatcher.Scanning, the
--     sweep of the contract's state in DccWatcher.Sweeping, the finality loop in
--     DccWatcher.Finality. One round of a loop is one function of the watcher and of the node's
--     answers; the two files that a watcher keeps are fields.
--   * Validator: the handlers of validator/src/main.ts that join the watchers, the fees, the limiter
--     and the consensus, and submitMintToDcc.
--   * Submission: submitUnlockToSolana of validator/src/main.ts and its serializers, with the
--     introspection and the message of programs/sol-bridge-lock/src/instructions/unlock.rs in
--     Submission.Introspection. Whether the transaction fits in a packet is not modelled.
--   * Anomalies: monitoring/src/detectors/anomaly-detector.ts, its state in Anomalies.State and its
--     checks in Anomalies.Checks.
--   * Reconciliation: reconcile of monitoring/src/reconciliation.ts.
-- The functions keep the names of the source, in snake case. Time is an argument of a call, and so
-- are the functions of other packages: the hash, the two signature checks, the signer, the text
-- decoder, base64, BigInt and parseInt on texts, PublicKey of web3.js and its program addresses;
-- what is assumed of them is a hypothesis of the theorem. Bigints and numbers are natural numbers,
-- signed ones written out; an integer of fixed width is written with its range check or its
-- wrap-around. `Number` of a bigint rounds to a double where a deposit is decoded and where its mint
-- is submitted (Encoding.Numbers); what else the source keeps as a number is taken to be below 2^53.
-- Floats are exact: fee rates are basis points, the monitor's ratios are fractions.
--
-- Loops are structural: over lists, over the depth of a tree (20 in the source, any number here),
-- over the 32 or 16 bytes of a buffer, or over the number of blocks left to scan. Three loops on
-- numbers run on fuel: base58_digits on twice the number of bytes (two digits of base 58 hold a
-- byte), number_bytes on the length of the id (a character holds less than a byte) and
-- decimal_digits on the number plus one. nearest_from has 11 steps, since doubles below 2^64 are at
-- most 2^11 apart.
--
-- Not modelled: network and disk I/O beyond its answers and whether a write succeeds, sleeps,
-- logging, metrics, the texts of alerts and errors; what happens between the awaits of one round
-- of a watcher's loop; the WebSocket mode of the Solana watcher; the checks of main.ts at startup
-- and its HTTP routes, the peer-to-peer transport and the ZK service of the validator, the API,
-- the front ends, the scripts, and the programs in Rust, but for what the validator must agree
-- with, in RIDE and in circom.
pub mod Base
pub mod Bytes
pub mod Encoding
pub mod Merkle
pub mod RateLimiter
pub mod Fees
pub mod Messages
pub mod Consensus
pub mod Submission
pub mod DccWatcher
pub mod SolanaWatcher
pub mod Validator
pub mod MessageIds
pub mod Serializer
pub mod Anomalies
pub mod Reconciliation
pub mod Bits
