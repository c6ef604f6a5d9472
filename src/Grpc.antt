-- ===== src/Grpc.antt =====
-- The values that gRPC handlers and their callers exchange. `Code` is the enumeration of the
-- package google.golang.org/grpc/codes; an error is kept as the tree of the calls that built it,
-- with the constant text of each, so that two different failures stay different values.
use gordion_vpn.Base.Bytes.{GoString}

pub data Code : Type 0 where
  ok_code canceled unknown invalid_argument deadline_exceeded not_found already_exists : Code
  permission_denied resource_exhausted failed_precondition aborted out_of_range : Code
  unimplemented internal unavailable data_loss unauthenticated : Code

pub data GoError : Type 0 where
  plain : GoString → GoError  -- fmt.Errorf(text) without a cause
  wrap : GoString → GoError → GoError  -- fmt.Errorf("text: %w", cause)
  status : Code → GoString → GoError  -- status.Error(code, text)
  statusf : Code → GoString → GoError → GoError  -- status.Errorf(code, "text: %v", cause)
  foreign : GoString → GoError  -- an error of a library

-- A Go pair `(value, err)` of which one side is meaningful.
pub data Result {ℓ} (A : Type ℓ) : Type ℓ where
  ok : A → Result A
  err : GoError → Result A
