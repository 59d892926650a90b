-- ===== src/ErrorCodes/Arms.antt =====
-- mysql/src/errorcodes.rs: `ErrorKind::from(x: u16)`.
mod From1000
mod From1148
mod From1296
mod From1444
mod From1592
mod From1740
use opensrv.Common.{ℕ, List, [], ◌∷◌, ◌++◌, ◌==◌, if◌then◌else◌}
use opensrv.ErrorCodes.Kinds.{ErrorKind, er_unknown_error}
use opensrv.ErrorCodes.Arms.From1000.{arms_from_1000}
use opensrv.ErrorCodes.Arms.From1148.{arms_from_1148}
use opensrv.ErrorCodes.Arms.From1296.{arms_from_1296}
use opensrv.ErrorCodes.Arms.From1444.{arms_from_1444}
use opensrv.ErrorCodes.Arms.From1592.{arms_from_1592}
use opensrv.ErrorCodes.Arms.From1740.{arms_from_1740}

-- The arms of `match x`, in order.
abbrev pub arms : List (ℕ × ErrorKind)
arms =
    arms_from_1000
    ++ (arms_from_1148
        ++ (arms_from_1296 ++ (arms_from_1444 ++ (arms_from_1592 ++ (arms_from_1740)))))

-- The first arm with the number, or `_`.
unfoldable pub kind_at : ℕ → List (ℕ × ErrorKind) → ErrorKind
kind_at x [] = er_unknown_error
kind_at x ((n, k) ∷ rest) = if x == n then k else kind_at x rest

unfoldable pub from_u16 : ℕ → ErrorKind
unfolding kind_at
from_u16 x = kind_at x arms
