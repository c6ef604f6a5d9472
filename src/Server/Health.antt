-- ===== src/Server/Health.antt =====
-- pkg/healthcheck/healthcheck.go, and the errors of pkg/grpcutil/errors.go.
use gordion_vpn.Base.{Bool, not, ◌&&◌, Option, none, some, if◌then◌else◌}
use gordion_vpn.Base.Bytes.{GoString, str, str_eq, is_empty}
use gordion_vpn.Grpc.{
  GoError, status, invalid_argument, not_found, unauthenticated, permission_denied, internal,
  already_exists, Result, ok, err,
}

pub data ServingStatus : Type 0 where
  serving not_serving : ServingStatus

-- The check asks for the store of the service, and may be left out.
pub record HealthServer : Type 0 where
  pub service_name : GoString
  pub checker : Option (Unit {0} → Bool)

checked : Option (Unit {0} → Bool) → ServingStatus
checked none = serving
checked (some checker) = if not (checker tt) then not_serving else serving

unfoldable pub check : HealthServer → GoString → Result ServingStatus
unfolding checked
check s service =
    if not (is_empty service) && not (str_eq service s.service_name)
    then err (status not_found (str "unknown service"))
    else ok (checked s.checker)

unfoldable pub err_invalid_argument : GoString → GoError
err_invalid_argument msg = status invalid_argument msg

unfoldable pub err_not_found : GoString → GoError
err_not_found msg = status not_found msg

unfoldable pub err_unauthenticated : GoString → GoError
err_unauthenticated msg = status unauthenticated msg

unfoldable pub err_permission_denied : GoString → GoError
err_permission_denied msg = status permission_denied msg

unfoldable pub err_internal : GoString → GoError
err_internal msg = status internal msg

unfoldable pub err_already_exists : GoString → GoError
err_already_exists msg = status already_exists msg
