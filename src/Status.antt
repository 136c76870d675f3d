-- ===== src/Status.antt =====
-- include/ntstatus.h: the status codes that the modelled code returns, as 32-bit patterns. The
-- test `r < STATUS_SUCCESS` on the signed type NTSTATUS is `is_error`.
use ring3k.Prelude.{ℕ, ◌^◌, Bool, leb}

abbrev pub is_error : ℕ → Bool
is_error r = leb (2 ^ 31) r

abbrev pub status_success : ℕ
status_success = 0x00000000

abbrev pub status_timeout : ℕ
status_timeout = 0x00000102

abbrev pub status_pending : ℕ
status_pending = 0x00000103

abbrev pub status_alerted : ℕ
status_alerted = 0x00000101

abbrev pub status_user_apc : ℕ
status_user_apc = 0x000000c0

abbrev pub status_object_name_exists : ℕ
status_object_name_exists = 0x40000000

abbrev pub status_invalid_handle : ℕ
status_invalid_handle = 0xc0000008

abbrev pub status_invalid_parameter : ℕ
status_invalid_parameter = 0xc000000d

abbrev pub status_invalid_parameter_1 : ℕ
status_invalid_parameter_1 = 0xc00000ef

abbrev pub status_invalid_parameter_2 : ℕ
status_invalid_parameter_2 = 0xc00000f0

abbrev pub status_invalid_parameter_5 : ℕ
status_invalid_parameter_5 = 0xc00000f3

abbrev pub status_no_memory : ℕ
status_no_memory = 0xc0000017

abbrev pub status_conflicting_addresses : ℕ
status_conflicting_addresses = 0xc0000018

abbrev pub status_access_denied : ℕ
status_access_denied = 0xc0000022

abbrev pub status_object_type_mismatch : ℕ
status_object_type_mismatch = 0xc0000024

abbrev pub status_object_name_collision : ℕ
status_object_name_collision = 0xc0000035

abbrev pub status_object_name_invalid : ℕ
status_object_name_invalid = 0xc0000033

abbrev pub status_invalid_page_protection : ℕ
status_invalid_page_protection = 0xc0000045

abbrev pub status_mutant_not_owned : ℕ
status_mutant_not_owned = 0xc0000046

abbrev pub status_semaphore_limit_exceeded : ℕ
status_semaphore_limit_exceeded = 0xc0000047

abbrev pub status_memory_not_allocated : ℕ
status_memory_not_allocated = 0xc00000a0

abbrev pub status_unable_to_free_vm : ℕ
status_unable_to_free_vm = 0xc000001a

abbrev pub status_access_violation : ℕ
status_access_violation = 0xc0000005

abbrev pub status_not_implemented : ℕ
status_not_implemented = 0xc0000002

abbrev pub status_invalid_info_class : ℕ
status_invalid_info_class = 0xc0000003

abbrev pub status_info_length_mismatch : ℕ
status_info_length_mismatch = 0xc0000004

abbrev pub status_object_name_not_found : ℕ
status_object_name_not_found = 0xc0000034

abbrev pub status_object_path_not_found : ℕ
status_object_path_not_found = 0xc000003a

abbrev pub status_object_path_syntax_bad : ℕ
status_object_path_syntax_bad = 0xc000003b

abbrev pub status_insufficient_resources : ℕ
status_insufficient_resources = 0xc000009a

abbrev pub status_pipe_broken : ℕ
status_pipe_broken = 0xc000014b

abbrev pub status_pipe_busy : ℕ
status_pipe_busy = 0xc00000ae

abbrev pub status_pipe_connected : ℕ
status_pipe_connected = 0xc00000b2

abbrev pub status_thread_is_terminating : ℕ
status_thread_is_terminating = 0xc000004b
