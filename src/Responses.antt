-- ===== src/Responses.antt =====
-- What the server answers where a request raises: syncmaster/server/handler.py, with the schemas of
-- syncmaster/errors.
pub mod Statuses
use syncmaster.Errors.{
  Exception, SyncmasterError, auth_data_not_found, raised, Status, connection_delete,
  redirect_error, ConnectionType, Side, queue_delete, different_type_connections_and_params,
  authorization_error, cannot_connect_to_task_queue, logout_error, cannot_stop_run,
  action_not_allowed, group_not_found, run_not_found, queue_not_found, group_already_exists,
  already_is_not_group_member, already_is_group_member, already_is_group_owner, user_not_found,
  username_already_exists, connection_not_found, connection_owner, transfer_not_found,
  transfer_owner, connection_type_update, connection_auth_data_update,
  different_transfer_and_connections_groups, different_transfer_and_queue_group,
  duplicated_connection_name, duplicated_transfer_name, duplicated_queue_name,
}
use syncmaster.Prelude.{List, String, ℕ, ◌∷◌, Option, [], none, some}

-- The text of a message, in pieces: a literal, a number, or the value of an enum.
pub data Piece : Type 0 where
  text : String → Piece
  number : ℕ → Piece
  status_value : Status → Piece
  type_value : ConnectionType → Piece
  side_name : Side → Piece

-- The status code of a response, and its body. `RedirectError` has its URL as details.
pub record Response : Type 0 where
  pub status_code : ℕ
  pub code : String
  pub message : List Piece
  pub details : Option String

abbrev error_response : ℕ → String → List Piece → Response
error_response status_code code message = record {
  status_code = status_code;
  code = code;
  message = message;
  details = none;
}

-- `content.code` keeps the default of `BadRequestSchema`.
abbrev bad_request : List Piece → Response
bad_request message = error_response 400 "bad_request" message

abbrev not_found : String → Response
not_found message = error_response 404 "not_found" (text message ∷ [])

abbrev conflict : String → Response
conflict message = error_response 409 "conflict" (text message ∷ [])

abbrev unauthorized : String → Option String → Response
unauthorized message details = record {
  status_code = 401;
  code = "unauthorized";
  message = text message ∷ [];
  details = details;
}

-- `getattr(exc, "message", "")`, where the handler passes it on.
abbrev message_of : SyncmasterError → List Piece
message_of (auth_data_not_found connection_id) = text "Connection id = " ∷ number connection_id ∷ []
message_of (connection_delete n) =
    text "The connection has an associated transfers. Number of the connected transfers: "
    ∷ number n
    ∷ []
message_of (queue_delete n) =
    text "The queue has an associated transfers(s). Number of the linked transfers: "
    ∷ number n
    ∷ []
message_of (different_type_connections_and_params connection_type params_type conn) =
    side_name conn
    ∷ text " connection has type `"
    ∷ type_value connection_type
    ∷ text "` but its params has `"
    ∷ type_value params_type
    ∷ text "` type"
    ∷ []
message_of (authorization_error message) = text message ∷ []
message_of (logout_error _) = text "Logout error" ∷ []
message_of _ = text "" ∷ []

unfoldable pub syncmaster_exception_handler : SyncmasterError → Response
syncmaster_exception_handler (auth_data_not_found connection_id) =
    error_response 404 "not_found"
      (text "Credentials not found. " ∷ message_of (auth_data_not_found connection_id))
syncmaster_exception_handler (redirect_error redirect_url) =
    unauthorized "Please authorize using provided URL" (some redirect_url)
syncmaster_exception_handler (authorization_error _) = unauthorized "Not authenticated" none
syncmaster_exception_handler (connection_delete n) =
    error_response 409 "conflict" (message_of (connection_delete n))
syncmaster_exception_handler action_not_allowed =
    error_response 403 "forbidden" (text "You have no power here" ∷ [])
syncmaster_exception_handler group_not_found = not_found "Group not found"
syncmaster_exception_handler run_not_found = not_found "Run not found"
syncmaster_exception_handler queue_not_found = not_found "Queue not found"
syncmaster_exception_handler group_already_exists = conflict "Group name already taken"
syncmaster_exception_handler already_is_not_group_member =
    conflict "User already is not group member"
syncmaster_exception_handler already_is_group_member = conflict "User already is group member"
syncmaster_exception_handler already_is_group_owner = conflict "User already is group owner"
syncmaster_exception_handler user_not_found = not_found "User not found"
syncmaster_exception_handler username_already_exists = conflict "Username is already taken"
syncmaster_exception_handler connection_not_found = not_found "Connection not found"
syncmaster_exception_handler connection_owner =
    bad_request (text "Cannot create connection with that user_id and group_id values" ∷ [])
syncmaster_exception_handler transfer_not_found = not_found "Transfer not found"
syncmaster_exception_handler transfer_owner =
    bad_request (text "Cannot create transfer with that group_id value" ∷ [])
syncmaster_exception_handler connection_type_update =
    conflict
      "You cannot update the connection type of a connection already associated with a transfer."
syncmaster_exception_handler connection_auth_data_update =
    conflict "You cannot update the connection auth type without providing a new secret value."
syncmaster_exception_handler different_transfer_and_connections_groups =
    bad_request (text "Connections should belong to the transfer group" ∷ [])
syncmaster_exception_handler different_transfer_and_queue_group =
    bad_request (text "Queue should belong to the transfer group" ∷ [])
syncmaster_exception_handler
      (different_type_connections_and_params connection_type params_type conn) =
    bad_request
      (message_of (different_type_connections_and_params connection_type params_type conn))
syncmaster_exception_handler (queue_delete n) =
    error_response 409 "conflict" (message_of (queue_delete n))
syncmaster_exception_handler duplicated_connection_name =
    conflict "The connection name already exists in the target group, please specify a new one"
syncmaster_exception_handler duplicated_transfer_name =
    conflict "The transfer name already exists in the target group, please specify a new one"
syncmaster_exception_handler duplicated_queue_name =
    conflict "The queue name already exists in the target group, please specify a new one"
syncmaster_exception_handler (cannot_connect_to_task_queue run_id) =
    error_response 503 "service_unavaliable" (
      text "Syncmaster not connected to task queue. Run " ∷ number run_id ∷ text " was failed" ∷ [])
syncmaster_exception_handler (cannot_stop_run run_id current_status) = bad_request (
    text "Cannot stop run "
    ∷ number run_id
    ∷ text ". Current status is "
    ∷ status_value current_status
    ∷ [])
syncmaster_exception_handler _ =
    error_response 500 "unknown" (text "Got unhandled exception. See logs" ∷ [])

-- The details are shown in debug mode only, and are left out.
abbrev pub unknown_exception_handler : Response
unknown_exception_handler =
    error_response 500 "unknown" (text "Got unhandled exception. Please contact support" ∷ [])

-- `application.exception_handlers`: an error of the program, or any other exception.
unfoldable pub handle_exception : Exception → Response
handle_exception (raised e) = syncmaster_exception_handler e
handle_exception _ = unknown_exception_handler
