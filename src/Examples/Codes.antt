-- ===== src/Examples/Codes.antt =====
-- mysql/src/errorcodes.rs: numbers and SQL states.
use opensrv.Common.{◌≡◌, true, if◌then◌else◌}
use opensrv.ErrorCodes.{code, from_u16, sqlstate, er_malformed_packet, er_unknown_com_error}
use opensrv.ErrorCodes.RoundTrip.{
  is_code, is_error_state, code-from_u16, from_u16-code, sqlstate-is_error_state,
}

code-from_u16_example : code (from_u16 1768) ≡ (if is_code 1768 then 1768 else 1105)
code-from_u16_example = code-from_u16 1768

from_u16-code_example : from_u16 (code er_malformed_packet) ≡ er_malformed_packet
from_u16-code_example = from_u16-code er_malformed_packet

sqlstate-is_error_state_example : is_error_state (sqlstate er_unknown_com_error) ≡ true
sqlstate-is_error_state_example = sqlstate-is_error_state er_unknown_com_error
