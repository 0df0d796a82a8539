-- ===== src/Errors.antt =====
-- libmsrv/include/magicserver/msrverror.h: the error codes. A result is an `int`: a negative one is
-- an error, zero is success (`MSrvResult` of msrvdef.h).
use magicserver.Prelude.{ℕ, ◌+◌, ℤ, pos, neg}

abbrev pub MsrvResult : Type 0
MsrvResult = ℤ

abbrev pub success : MsrvResult
success = pos 0

-- The generic codes count from 0, those of a module from its base.
abbrev pub null_argument : MsrvResult
null_argument = neg 1

abbrev pub short_write : MsrvResult
short_write = neg 2

abbrev pub too_many_errors : MsrvResult
too_many_errors = neg 3

abbrev pub timeout : MsrvResult
timeout = neg 4

abbrev pub invalid_argument : MsrvResult
invalid_argument = neg 5

abbrev pub unspecified_lowerlevel : MsrvResult
unspecified_lowerlevel = neg 6

abbrev pub server_base : ℕ → MsrvResult
server_base n = neg (1000 + n)

abbrev pub socket_failed : MsrvResult
socket_failed = server_base 1

abbrev pub bind_failed : MsrvResult
bind_failed = server_base 2

abbrev pub listen_failed : MsrvResult
listen_failed = server_base 3

abbrev pub accept_failed : MsrvResult
accept_failed = server_base 4

abbrev pub select_failed : MsrvResult
select_failed = server_base 5

abbrev pub shutdown_event : MsrvResult
shutdown_event = server_base 6

abbrev pub read_failed : MsrvResult
read_failed = server_base 7

abbrev pub descriptor_not_found : MsrvResult
descriptor_not_found = server_base 8

abbrev pub connection_no_socket : MsrvResult
connection_no_socket = server_base 9

abbrev pub no_listener : MsrvResult
no_listener = server_base 10

abbrev pub set_socket_options_failed : MsrvResult
set_socket_options_failed = server_base 10

abbrev pub log_base : ℕ → MsrvResult
log_base n = neg (2000 + n)

abbrev pub log_open_failed : MsrvResult
log_open_failed = log_base 1

abbrev pub log_write_failed : MsrvResult
log_write_failed = log_base 2

abbrev pub log_not_open : MsrvResult
log_not_open = log_base 3

abbrev pub log_no_filename : MsrvResult
log_no_filename = log_base 4

abbrev pub log_already_open : MsrvResult
log_already_open = log_base 5

abbrev pub log_invalid_fatality : MsrvResult
log_invalid_fatality = log_base 6

abbrev pub thread_base : ℕ → MsrvResult
thread_base n = neg (3000 + n)

abbrev pub thread_create_failed : MsrvResult
thread_create_failed = thread_base 1

abbrev pub thread_join_failed : MsrvResult
thread_join_failed = thread_base 2

abbrev pub repeat_shutdown_request : MsrvResult
repeat_shutdown_request = neg 4001
