-- ===== src/Lib.antt =====
-- The prism auto-compounding contracts: a staking derivative on Terra. Users bond coins with the
-- hub, which delegates them and mints tokens for them; the staking rewards go through the
-- rewards contract back to the hub, which takes a protocol fee, delegates the rest and so raises
-- the exchange rate of the tokens; users unbond tokens in batches, which are undelegated once per
-- epoch and released, at a rate that shares out what came back, after the unbonding period.
--
-- The parts and their sources (paths from the repository's root):
--   Protocol/Hub, Protocol/Rewards, Protocol/ContractError: the types of
--     packages/prism-protocol/src.
--   SignedInt: packages/signed_integers/src/signed_integer.rs, `from_subtraction`.
--   Hub/Store: contracts/prism_hub/src/state.rs. One record holds every item of the contract; the
--     bucket of a user's unbonding requests is a list of batch ids and amounts, the histories an
--     association list in ascending order of their ids.
--   Hub/Rates: `State::update_exchange_rate` of hub.rs, `decimal_division` of math.rs.
--   Hub/Decimals: the three functions of math.rs that go through `Decimal256`.
--   Hub/Slashing: `slashing`, `query_total_issued` of contract.rs.
--   Hub/Bond: bond.rs, `execute_bond`.
--   Hub/Pick: unbond.rs, `pick_validator`.
--   Hub/Unbond: unbond.rs, `execute_unbond`.
--   Hub/Withdraw: unbond.rs, `execute_withdraw_unbonded`, `process_withdraw_rate`.
--   Hub/Compound: autho_compounding.rs, and `execute_update_global` of contract.rs.
--   Hub/Validators, Hub/Admin: config.rs, utility.rs, migration.rs, and the pause, admin and
--     migrate entries of contract.rs.
--   Hub/Instantiate, Hub/Contract, Hub/Query: contract.rs, `instantiate`, `execute`, `query`.
--   Hub/Invariant: the invariant of the batches over all messages.
--   Hub/Claims: the claims of all users on the batches, over all messages.
--   Hub/Solvent: what the hub owes on the released batches, against the balance it remembers and
--     its coins at the bank, over all messages.
--   Hub/Histories: what becomes of a recorded history, over all messages.
--   Hub/Clock: the histories under a clock that does not go back, and when they are released.
--   Hub/Stakes: what the messages stake and unstake against the bond, over all messages.
--   Hub/Vault: the hub and its token against an abstract vault of assets, claims and a rate.
--   Rewards: contracts/prism_rewards/src.
--
-- A handler takes the querier, the environment, the sender with the funds and the store, and
-- returns an `Outcome`: the messages and the new store, an error, or a panic. An error and a
-- panic drop every write, so they carry no store. A long handler is cut into helpers that follow
-- one another as its statements do. Each file under Hub that proves something about a handler is
-- its child: Asked, Closing, Worth, Effect, Laws, Losses, Left, Bounds, Total, Rounds, Sent,
-- Loops, Counting, Process, Removal, Payout, Shares, Sums, Solvency, Exact, Returns, Surplus,
-- Access, Settings, Coin, Registered, Whitelist, Kept, Pages, Setup, Migration, Frames, Cases,
-- Handlers, Changes, Steps, Reach, Payable, Own, World, Quiet, Acts, Rate, Requests, Refines,
-- Backed, Flows, Messages, Idle, Undelegations, Dispatch, Listed, Owed, Release, Runs, Payment, Spending,
-- Bank, Later, Recorded, Released, Queried; Rewards has Forward and Compounded.
-- Hub/Contract/Dispatch names the handler behind each message once; a proof over all messages takes
-- its cases from there, or from the coarser ones of Hub/Invariant/Cases and Hub/Vault/Acts.
-- Hub/Sample and Hub/Invariant/Scenario are the stores and runs on which the tests stand.
--
-- The vault is the abstract view of the hub with its token: the bond is its assets, the total
-- supply and the open batch its claims. It forgets the batches, the users and the validators. A
-- message is one act of the vault with the same event: what is left of the bond, the fee's terms,
-- and the flow of coins and tokens. The token contract is a record of what a mint and a burn make
-- of its total supply, with their laws.
--
-- The hub's coins at the bank are a number beside its store (Hub/Solvent/Bank): the funds of a
-- message arrive before it is handled, what its messages delegate, send or hand over leaves, and
-- the chain may add to it between messages. What a validator loses is not taken from this number,
-- but shows as coins that do not come back.
--
-- Code outside the repository is a parameter. `Platform` holds cosmwasm_std's numbers (with the
-- range check of their documentation), its address functions, the draw of the rand crate, the
-- admin check of cw_controllers and the order in which a range gives its entries, each with the
-- laws that are used; Platform/Reference is one instance, in which the tests run. `Querier` holds
-- the answers of the chain and of the token contract, and the decoding of the hook in a message.
--
-- Amounts are natural numbers, a `Decimal` its atomics of 10^-18. The range checks of `Uint128`
-- and `Decimal` are in the platform's laws, those of `u64` in Machine. The loops run on fuel: the
-- pick has one round more than there are delegations, since each round takes one out and the draw
-- from none panics; the release's loops have two rounds more than the largest history id, since
-- each round reads the next id. Running out is a fault of its own, which is proved not to occur.
--
-- Not modelled: the attributes of a response (the event log), JSON and binary encodings, the
-- message data types' derives, the schema generators and the tests; and packages/bignumber, a copy
-- of another project's library, which the contracts reach only from the functions of Hub/Decimals.
-- What those use of it is a parameter, `Wide`.
pub mod Prelude
pub mod Outcome
pub mod Machine
pub mod Platform
pub mod Protocol
pub mod Chain
pub mod SignedInt
pub mod Hub
pub mod Rewards
