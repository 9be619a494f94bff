-- ===== src/Lib.antt =====
-- The dogether contracts: a no-loss lottery pool over a money market, in three CosmWasm contracts.
--
-- The parts and how they interact. A user pools a stable coin at the dogether contract
-- (contracts/dogether/src). The contract deposits it into the money market, and has the token
-- contract (contracts/cw20-contract-dogether/src) mint as many tokens straight into the staking
-- contract (contracts/loterra-staking-contract-dogether/src), which records them as the user's
-- stake. The interest of the pool is redeemed once per draw period and sent to the staking
-- contract, which spreads it over the stake by a global index; a holder spends his share on
-- lottery tickets. To leave, a user unpools: the staking contract turns stake into a claim that
-- is released after the unbonding period, a withdrawal burns the claimed tokens at the token
-- contract, and the reply to it pays the user from the money market.
--
-- The files.
--   Prelude: the names that all files share, tests on data, lists, results, text and numbers in
--     text. An entry point ends in `Outcome`: a value, an error (`Err`) or a panic (an `unwrap`
--     of nothing, an overflow of an operator); an error or a panic changes no state.
--   Platform: the data of cosmwasm_std that the contracts read and write (Types), its services as
--     a record of parameters (Std) with their documented behaviour (Laws), stored maps as
--     association lists (Storage), which are read in the order of the keys' bytes (Range), and
--     one concrete platform (Sample, Numerals), which meets the laws.
--   Taxation: compute_tax and deduct_tax of taxation.rs, which two contracts hold a copy of.
--   Staking: State, Msg, Math for state.rs, msg.rs, math.rs; Claim for claim.rs; Global for
--     global.rs; Rewards, Ticket, Stake and Query for user.rs; Listing for the pages of the
--     holders in state.rs and user.rs; Contract and Dispatch for contract.rs. Each `handle_*`
--     function is the whole handler: it takes the storage and gives the storage after it and the
--     response. Access, Custody, Solvency, Frame and Fits hold what is proved of all messages.
--   Token: State, Msg, Contract and Dispatch for state.rs, msg.rs and error.rs, contract.rs;
--     Listing for enumerable.rs; Description and Supply hold what is proved of them.
--   Dogether: State, Msg, Math for state.rs, msg.rs and error.rs, math.rs; Pool, Redeem and Reply
--     for the messages and the replies of contract.rs; Contract and Dispatch for the entry points;
--     Refusals holds what is proved of the errors.
--   System: the three contracts together; a step is one transaction across them, in which each
--     call is the one that a message of the call before it names. Entry, Exit and Payout hold
--     what is proved of a user's way in and out. Deployment is a sample
--     of the three on one chain.
--   The modules named Examples hold runs on concrete data, with one use of each result. Those
--     named Tests hold the unit tests of the source, each as what it asserts of the model, and
--     what mock_querier.rs of the dogether contract answers.
--
-- How the code is read. A `Uint128` is a natural number, and a `Decimal` or `Decimal256` is its
-- atomics, the number of 10^-18 units; where the code can overflow, the services return no value
-- above their bounds. An `Item` is an optional field of the storage record. A message that a
-- contract sends is a value in the response, with a typed body in place of its binary form. The
-- answers of other contracts and of the bank are parameters, and so are the two directions of
-- the binary encoding of the hook message, and the encoding of the answers to queries. All loops
-- of the code recurse on a list, without fuel; a client that reads page after page has a bound on
-- the pages, and one above the number of entries is enough.
-- The states that a contract can reach are an inductive relation: an instantiation on an empty
-- storage, then any messages with any senders, environments and answers; for the three contracts
-- together, a deployment and then any transactions.
--
-- Not modelled: the schema generators, which write files, and the integration tests of the
-- staking contract (testing).
pub mod Prelude
pub mod Platform
pub mod Taxation
pub mod Staking
pub mod Token
pub mod Dogether
pub mod System
