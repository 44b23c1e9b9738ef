-- ===== src/Handlers/Bodies.antt =====
-- The fixed bodies of the responses of src/handlers/api_handlers.cpp.
use sd_hw.Prelude.{Text, codes}

unfoldable pub invalid_json : Text
invalid_json = codes "{\"error\": \"Invalid JSON or missing fields\"}"

unfoldable pub bad_request : Text
bad_request = codes "{\"error\": \"Bad request\"}"

unfoldable pub internal_server_error : Text
internal_server_error = codes "{\"error\": \"Internal server error\"}"

unfoldable pub too_many_requests : Text
too_many_requests = codes "{\"error\": \"Too Many Requests\"}"

unfoldable pub invalid_credentials : Text
invalid_credentials = codes "{\"error\": \"Invalid credentials\"}"

unfoldable pub user_exists : Text
user_exists = codes "{\"error\": \"User already exists\"}"

unfoldable pub status_ok : Text
status_ok = codes "{\"status\": \"ok\"}"

unfoldable pub missing_login : Text
missing_login = codes "{\"error\": \"Missing login argument\"}"

unfoldable pub user_not_found : Text
user_not_found = codes "{\"error\": \"User not found\"}"

unfoldable pub missing_mask : Text
missing_mask = codes "{\"error\": \"Missing mask argument\"}"

unfoldable pub route_not_found : Text
route_not_found = codes "{\"error\": \"Route not found\"}"

unfoldable pub trip_not_found : Text
trip_not_found = codes "{\"error\": \"Trip not found\"}"

unfoldable pub missing_id : Text
missing_id = codes "{\"error\": \"Missing id argument\"}"
