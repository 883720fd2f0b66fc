-- ===== src/Rbac/Error.antt =====
-- The sentinel errors of internal/rbac (role.go, cohort.go).
pub data Error : Type 0 where
  cohort_not_found circular_reference max_depth_exceeded invalid_cohort invalid_operator : Error
  missing_operands self_reference : Error
  unknown_role access_denied unknown_action : Error
  -- errors made by `fmt.Errorf` without a sentinel
  role_name_required invalid_scope malformed_role : Error
  -- the sentinels of config.go
  duplicate_pubkey duplicate_username : Error
  -- a nil pointer is dereferenced
  nil_dereference : Error
  -- not an error of the program: a bounded recursion of the model ran out of fuel
  out_of_fuel : Error
