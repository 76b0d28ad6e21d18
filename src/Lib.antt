-- ===== src/Lib.antt =====
-- Verification library of the Solana proxy of Orderly Network.
--
-- The repository has three parts that speak to each other over LayerZero. Hardhat tasks in TypeScript
-- (tasks/) configure the system and send a user's requests. The Solana program programs/solana-proxy
-- takes those requests, charges fees for them and forwards them; it is configured by its admin. The
-- contract contracts/LedgerOApp.sol, with the codec in contracts/lib, receives them on the EVM side
-- and answers.
--
-- Below Script stand the tasks, function by function of tasks/proxy/utils.ts and the files around it:
-- Payload (checkPayloadType, checkPayload and how sol:proxy:request uses them), Amounts
-- (convertIntoBytes32 and the ORDER amounts), Environment (the choice of network, endpoint id, options
-- and accounts for an environment) over the tables of tasks/proxy/constants.ts in Constants, Pda
-- (tasks/proxy/pdaHelper.ts), Client (prepareParamsAndAccounts and the calls that it is made for),
-- Tasks (the tasks that a user runs, from their arguments to the call that they send), Hex
-- (hexadecimal texts), Dvns (equalDVNs and the task orderly:getconfig of tasks/proxy/setLedgerOApp.ts
-- as the list of transactions that it sends), Setup (the tasks of tasks/proxy/setProxy.ts that
-- configure the proxy, as the instructions that they submit to Program/Admin), Endpoint (what
-- sol:proxy:init and sol:proxy:setconfig submit for the LayerZero endpoint), Staking (what
-- quoteStakingFee and sendStakingRequest hand to the OFT program), Fees (tasks/utils/getFee.ts),
-- Multisig (tasks/solana/multisig.ts), Transactions (getTransactionWithRetries, getReturnLog,
-- bytes32ToEvmAddress), Peer (orderly:ledgeroapp:setpeer as the transactions that it sends to the
-- contract), Oft (the tasks of tasks/solana that create the OFT's token and set its authorities, as
-- steps that throw or go on), and Wiring (lz:oapp:config:get of tasks/common as the table that it
-- returns). Steps is the monad of the tasks that send one transaction after another. Number and
-- Sorting are what these use of JavaScript: `Number(text)` and `sort`. Keys is the interface to the
-- public keys of @solana/web3.js.
--
-- Below Program stands programs/solana-proxy: Payload and Codec (msg_codec.rs, and the decoder and the
-- type checks of contracts/lib), Request (quote_request, send_request, quote_claim, send_claim),
-- RateLimiter (state/peer_config.rs), Admin (init_proxy and the instructions of the admin, as one step
-- relation), Receive (lz_receive and lz_receive_types), Claim (submit_proof and its Merkle root) and
-- Seeds (the addresses that its accounts must have).
--
-- Contract has contracts/LedgerOApp.sol: Revert is what a call answers, LedgerOapp the owner's
-- functions, _lzReceive, ledgerOappSend and ledgerOappSendQuote. System puts the parts together:
-- Requests follows a request from the task through the program and the contract to the OCC manager,
-- Payments a payment the other way. Bytes has the byte strings of both sides, Prelude the names and
-- lemmas that all share. A module Laws, or one named for its subject, proves about its parent; Tests
-- holds runs and examples.
--
-- A `throw` is a value of Result, an error of the program a value of Outcome, a panic or a revert in
-- the codec `none`. Numbers are natural numbers; u64 arithmetic of the program is checked or saturates
-- as the source says, and a key is a byte string, an abstract value or the number of its bytes, as
-- each module says. No function needs fuel: loops are recursion on a list or on a count; the loop of
-- getTransactionWithRetries is recursion on the rounds that maxRetries leaves. Where an SDK's call may
-- throw, the parameter answers none or false; a factor of the priority fee is given as its floor, and
-- a limit of compute units is counted in tenths.
--
-- Parameters, because their code is not in the repository: ethers' BigNumber (BigNumbers), public keys
-- and derived addresses (PublicKeys), the seeds of the LayerZero SDK (SdkSeeds), its endpoint ids
-- (EndpointIds), the endpoint and the system program that an instruction invokes (Invoked, Solana),
-- rent, clock and `assert_type_3`, keccak, what the tasks call of the SDKs (Sdk), the OCC manager, the
-- option builder and the endpoint of the contract (Callees), base64 and base58, the Solana chain as
-- the OFT's tasks see it (Cluster; KeepsItsWord is what they rely on), what the devtools answer
-- (Devtools), the endpoint as the tasks of the proxy see it (Script.Endpoint.Chain), the network that
-- a user's tasks call (Network), and the ABI encoder of a stake.
--
-- Not modelled: printing, deployment files, transactions' transport, the other OFT tasks and the OFT
-- program programs/oft, set_account_list, the vendored contracts/layerzerolabs and the generated
-- types.
mod Prelude
pub mod Bytes
pub mod Script
pub mod Program
pub mod Contract
pub mod System
