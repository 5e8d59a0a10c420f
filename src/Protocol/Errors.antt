-- ===== src/Protocol/Errors.antt =====
-- pkg/protocol/errors.go: the text of an error that the server reports.
use komandgo.Base.{ℕ, ◌≡◌, refl, ◌++◌, Bytes, codes, ◌==◌, if◌then◌else◌}
use komandgo.Fmt.{format_decimal}

-- `protocolError`
unfoldable pub protocol_error : ℕ → ℕ → Bytes
unfolding format_decimal
protocol_error code status =
    if code == 0
    then codes "Error code "
      ++ (format_decimal code
          ++ (codes ", status "
              ++ (format_decimal status ++ codes ", this technically means 'no error'...")))
    else if code == 2
    then codes "Not implemented."
    else if code == 3
    then codes "Obsoleted."
    else if code == 4
    then codes "Invalid password."
    else if code == 5
    then codes "String too long, max length is " ++ format_decimal status
    else if code == 6
    then codes "Not logged in."
    else if code == 7
    then codes "System in single-used mode, login not allowed."
    else if code == 8
    then codes "Attempting to use conference 0."
    else if code == 9
    then codes "Non-existent conference, " ++ format_decimal status
    else if code == 10
    then codes "Non-existent person, " ++ format_decimal status
    else if code == 11
    then codes "Access denied, " ++ format_decimal status
    else if code == 12
    then codes "Permission denied operating on object " ++ format_decimal status
    else if code == 13
    then codes "Requires membership in conference " ++ format_decimal status
    else if code == 14
    then codes "Text " ++ (format_decimal status ++ codes " is not available.")
    else if code == 15
    then codes "Text zero."
    else if code == 16
    then codes "No such local text " ++ format_decimal status
    else if code == 17
    then codes "Local text zero"
    else if code == 18
    then codes "Bad name."
    else if code == 19
    then codes "Index out of range, status code is " ++ format_decimal status
    else codes "Generic error, code is "
      ++ (format_decimal code ++ (codes ", status is " ++ format_decimal status))

error_runs : protocol_error 14 4711 ≡ codes "Text 4711 is not available."
unfolding protocol_error
error_runs = refl
