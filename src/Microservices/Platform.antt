-- ===== src/Microservices/Platform.antt =====
-- 63_microservices/internal/platform/resilience.go: the errors and their codes, here; retry and
-- circuit breaker, below.
pub mod Retry
pub mod Breaker
use go_basics.Common.{Bool, true, false}

-- `codes.Code` of grpc.
pub data Code : Type 0 where
  ok canceled unknown invalid_argument deadline_exceeded not_found already_exists : Code
  permission_denied resource_exhausted failed_precondition aborted out_of_range : Code
  unimplemented internal unavailable data_loss unauthenticated : Code

-- `ctx.Err()`.
pub data ContextError : Type 0 where
  ctx_canceled ctx_deadline : ContextError

-- An error, by what the code asks of it through `errors.Is` and `status.Code`. Wrapping by `%w`
-- keeps both; texts are left out.
pub data Failure : Type 0 where
  -- a grpc status
  status : Code → Failure
  -- a context's own error, which carries no status
  context : ContextError → Failure
  -- ErrCircuitOpen
  circuit_open : Failure
  -- any other error
  plain : Failure

-- `status.Code` of an error: Unknown where it carries no status.
unfoldable pub code_of : Failure → Code
code_of (status c) = c
code_of (context e) = unknown
code_of circuit_open = unknown
code_of plain = unknown

-- `errors.Is(err, context.Canceled)`.
unfoldable pub is_canceled : Failure → Bool
is_canceled (context ctx_canceled) = true
is_canceled e = false

abbrev retryable_code : Code → Bool
retryable_code unavailable = true
retryable_code resource_exhausted = true
retryable_code aborted = true
retryable_code c = false

-- `Retryable`.
unfoldable pub retryable : Failure → Bool
unfolding code_of
retryable e = retryable_code (code_of e)
