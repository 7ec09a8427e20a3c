-- ===== src/Hub/Stakes/Tests.antt =====
-- The request that closes the first batch takes ninety coins off the bond and undelegates them.
use prism_auto_compounding_c.Platform.Reference.{reference}
use prism_auto_compounding_c.Protocol.Hub.{receive}
use prism_auto_compounding_c.Hub.Sample.{querier, from_user}
use prism_auto_compounding_c.Hub.Invariant.Scenario.{
  closed_store, later, token_store, from_alice, unbond_messages, unbond_run,
}
use prism_auto_compounding_c.Hub.Slashing.Left.{bond_before}
use prism_auto_compounding_c.Hub.Stakes.Flows.{Booked}
use prism_auto_compounding_c.Hub.Stakes.Messages.{execute-Booked}

execute-Booked_example :
    Booked (bond_before querier later token_store (receive from_alice)) closed_store unbond_messages
execute-Booked_example =
    execute-Booked querier later (from_user "token") (receive from_alice) token_store closed_store
      unbond_messages unbond_run
