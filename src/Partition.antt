-- ===== src/Partition.antt =====
-- MDGateways/PlatformComm/PerPartitionSM.h, PerPartitionSM.cpp and SMEvents.h: the states of a
-- partition. The engine that runs them is a submodule, and a parameter.
use multi_market_prices.Prelude.{Bool, true, List, [], ◌∷◌, String}

pub data PartitionEvent : Type 0 where
  subscription_record : String → PartitionEvent
  download_end : PartitionEvent
  sub_unsub_key : String → Bool → PartitionEvent
  revoke assign_again : PartitionEvent

pub data PartitionState : Type 0 where
  downloading operational revoked : PartitionState

-- What `process` returns: the null transition, the deferral, a new state; or there is no `process`.
pub data Transition : Type 0 where
  null deferral unprocessed : Transition
  move : PartitionState → Transition

-- `process` of the three states, and the calls of `subFunc` (true) and `unsubFunc` (false).
unfoldable pub process : PartitionState → PartitionEvent → Transition × List (String × Bool)
process downloading (subscription_record key) = (null, (key, true) ∷ [])
process downloading (sub_unsub_key key is_sub) = (deferral, [])
process downloading revoke = (deferral, [])
process downloading download_end = (move operational, [])
process operational (sub_unsub_key key is_sub) = (null, (key, is_sub) ∷ [])
process operational revoke = (move revoked, [])
process revoked assign_again = (move downloading, [])
process state event = (unprocessed, [])

-- The engine: a machine in its first state that has been started, and `handleEvent` with its calls.
pub record Engine (F : Type 0) : Type 0 where
  pub started : F
  pub handle_event : F → PartitionEvent → F × List (String × Bool)
