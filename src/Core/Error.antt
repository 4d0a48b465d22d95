-- ===== src/Core/Error.antt =====
-- The errors of app/core/exceptions.py and those of the services, with Python's own where the code
-- raises them, and the result of a call.

-- The resource that a ResourceNotFoundError names in its message.
pub data Missing : Type 0 where
  user item cat item_asset owned_cat owned_consumable placed_object placed_item : Missing
  gacha_cat gacha_item cat_asset daily_reward cat_memory : Missing

pub data Error : Type 0 where
  idempotency_conflict insufficient_balance item_already_owned invalid_quantity : Error
  invalid_item_category placement_limit_exceeded placement_outside_room : Error
  placement_occupied already_claimed reward_not_ready runtime_error value_error : Error
  invalid_memory_summary invalid_ai_response battle_error submission_error daily_mission_error
        lookup_error key_error integrity_error stop_iteration type_error :
      Error
  resource_not_found : Missing → Error

pub data Result (A : Type 0) : Type 0 where
  ok : A → Result A
  err : Error → Result A
