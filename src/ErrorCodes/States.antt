-- ===== src/ErrorCodes/States.antt =====
-- mysql/src/errorcodes.rs: `ErrorKind::sqlstate`.
use opensrv.Common.{[], ◌∷◌, Bytes}
use opensrv.ErrorCodes.Kinds as K
use opensrv.ErrorCodes.Kinds.{ErrorKind}

abbrev state_08s01 : Bytes
state_08s01 = 0x30 ∷ 0x38 ∷ 0x53 ∷ 0x30 ∷ 0x31 ∷ []

abbrev state_23000 : Bytes
state_23000 = 0x32 ∷ 0x33 ∷ 0x30 ∷ 0x30 ∷ 0x30 ∷ []

abbrev state_01000 : Bytes
state_01000 = 0x30 ∷ 0x31 ∷ 0x30 ∷ 0x30 ∷ 0x30 ∷ []

abbrev state_0a000 : Bytes
state_0a000 = 0x30 ∷ 0x41 ∷ 0x30 ∷ 0x30 ∷ 0x30 ∷ []

abbrev state_42000 : Bytes
state_42000 = 0x34 ∷ 0x32 ∷ 0x30 ∷ 0x30 ∷ 0x30 ∷ []

abbrev state_hy000 : Bytes
state_hy000 = 0x48 ∷ 0x59 ∷ 0x30 ∷ 0x30 ∷ 0x30 ∷ []

-- The arm of `HY000` names every other code, and comes last here.
unfoldable pub sqlstate : ErrorKind → Bytes
sqlstate K.er_bad_host_error = state_08s01
sqlstate K.er_handshake_error = state_08s01
sqlstate K.er_unknown_com_error = state_08s01
sqlstate K.er_server_shutdown = state_08s01
sqlstate K.er_forcing_close = state_08s01
sqlstate K.er_ipsock_error = state_08s01
sqlstate K.er_aborting_connection = state_08s01
sqlstate K.er_net_packet_too_large = state_08s01
sqlstate K.er_net_read_error_from_pipe = state_08s01
sqlstate K.er_net_fcntl_error = state_08s01
sqlstate K.er_net_packets_out_of_order = state_08s01
sqlstate K.er_net_uncompress_error = state_08s01
sqlstate K.er_net_read_error = state_08s01
sqlstate K.er_net_read_interrupted = state_08s01
sqlstate K.er_net_error_on_write = state_08s01
sqlstate K.er_net_write_interrupted = state_08s01
sqlstate K.er_new_aborting_connection = state_08s01
sqlstate K.er_master_net_read = state_08s01
sqlstate K.er_master_net_write = state_08s01
sqlstate K.er_connect_to_master = state_08s01
sqlstate K.er_no_db_error = 0x33 ∷ 0x44 ∷ 0x30 ∷ 0x30 ∷ 0x30 ∷ []
sqlstate K.er_da_invalid_condition_number = 0x33 ∷ 0x35 ∷ 0x30 ∷ 0x30 ∷ 0x30 ∷ []
sqlstate K.er_table_exists_error = 0x34 ∷ 0x32 ∷ 0x53 ∷ 0x30 ∷ 0x31 ∷ []
sqlstate K.er_sp_fetch_no_data = 0x30 ∷ 0x32 ∷ 0x30 ∷ 0x30 ∷ 0x30 ∷ []
sqlstate K.er_signal_not_found = 0x30 ∷ 0x32 ∷ 0x30 ∷ 0x30 ∷ 0x30 ∷ []
sqlstate K.er_bad_table_error = 0x34 ∷ 0x32 ∷ 0x53 ∷ 0x30 ∷ 0x32 ∷ []
sqlstate K.er_unknown_table = 0x34 ∷ 0x32 ∷ 0x53 ∷ 0x30 ∷ 0x32 ∷ []
sqlstate K.er_no_such_table = 0x34 ∷ 0x32 ∷ 0x53 ∷ 0x30 ∷ 0x32 ∷ []
sqlstate K.er_truncated_wrong_value = 0x32 ∷ 0x32 ∷ 0x30 ∷ 0x30 ∷ 0x37 ∷ []
sqlstate K.er_illegal_value_for_type = 0x32 ∷ 0x32 ∷ 0x30 ∷ 0x30 ∷ 0x37 ∷ []
sqlstate K.er_xa_rbtimeout = 0x58 ∷ 0x41 ∷ 0x31 ∷ 0x30 ∷ 0x36 ∷ []
sqlstate K.er_xaer_dupid = 0x58 ∷ 0x41 ∷ 0x45 ∷ 0x30 ∷ 0x38 ∷ []
sqlstate K.er_xa_rbdeadlock = 0x58 ∷ 0x41 ∷ 0x31 ∷ 0x30 ∷ 0x32 ∷ []
sqlstate K.er_xaer_outside = 0x58 ∷ 0x41 ∷ 0x45 ∷ 0x30 ∷ 0x39 ∷ []
sqlstate K.er_datetime_function_overflow = 0x32 ∷ 0x32 ∷ 0x30 ∷ 0x30 ∷ 0x38 ∷ []
sqlstate K.er_warn_data_out_of_range = 0x32 ∷ 0x32 ∷ 0x30 ∷ 0x30 ∷ 0x33 ∷ []
sqlstate K.er_cant_create_geometry_object = 0x32 ∷ 0x32 ∷ 0x30 ∷ 0x30 ∷ 0x33 ∷ []
sqlstate K.er_data_out_of_range = 0x32 ∷ 0x32 ∷ 0x30 ∷ 0x30 ∷ 0x33 ∷ []
sqlstate K.er_cant_do_this_during_an_transaction = 0x32 ∷ 0x35 ∷ 0x30 ∷ 0x30 ∷ 0x30 ∷ []
sqlstate K.er_read_only_transaction = 0x32 ∷ 0x35 ∷ 0x30 ∷ 0x30 ∷ 0x30 ∷ []
sqlstate K.er_outofmemory = 0x48 ∷ 0x59 ∷ 0x30 ∷ 0x30 ∷ 0x31 ∷ []
sqlstate K.er_out_of_sortmemory = 0x48 ∷ 0x59 ∷ 0x30 ∷ 0x30 ∷ 0x31 ∷ []
sqlstate K.er_sp_no_recursive_create = 0x32 ∷ 0x46 ∷ 0x30 ∷ 0x30 ∷ 0x33 ∷ []
sqlstate K.er_dup_key = state_23000
sqlstate K.er_bad_null_error = state_23000
sqlstate K.er_non_uniq_error = state_23000
sqlstate K.er_dup_entry = state_23000
sqlstate K.er_dup_unique = state_23000
sqlstate K.er_no_referenced_row = state_23000
sqlstate K.er_row_is_referenced = state_23000
sqlstate K.er_row_is_referenced_2 = state_23000
sqlstate K.er_no_referenced_row_2 = state_23000
sqlstate K.er_foreign_duplicate_key = state_23000
sqlstate K.er_dup_entry_with_key_name = state_23000
sqlstate K.er_foreign_duplicate_key_with_child_info = state_23000
sqlstate K.er_foreign_duplicate_key_without_child_info = state_23000
sqlstate K.er_dup_unknown_in_index = state_23000
sqlstate K.er_dup_fieldname = 0x34 ∷ 0x32 ∷ 0x53 ∷ 0x32 ∷ 0x31 ∷ []
sqlstate K.er_select_reduced = state_01000
sqlstate K.er_warn_too_few_records = state_01000
sqlstate K.er_warn_too_many_records = state_01000
sqlstate K.warn_data_truncated = state_01000
sqlstate K.er_sp_uninit_var = state_01000
sqlstate K.er_signal_warn = state_01000
sqlstate K.er_xaer_rmerr = 0x58 ∷ 0x41 ∷ 0x45 ∷ 0x30 ∷ 0x33 ∷ []
sqlstate K.er_xaer_rmfail = 0x58 ∷ 0x41 ∷ 0x45 ∷ 0x30 ∷ 0x37 ∷ []
sqlstate K.er_no_such_index = 0x34 ∷ 0x32 ∷ 0x53 ∷ 0x31 ∷ 0x32 ∷ []
sqlstate K.er_cant_execute_in_read_only_transaction = 0x32 ∷ 0x35 ∷ 0x30 ∷ 0x30 ∷ 0x36 ∷ []
sqlstate K.er_sp_badselect = state_0a000
sqlstate K.er_sp_badstatement = state_0a000
sqlstate K.er_sp_subselect_nyi = state_0a000
sqlstate K.er_stmt_not_allowed_in_sf_or_trg = state_0a000
sqlstate K.er_sp_no_retset = state_0a000
sqlstate K.er_alter_operation_not_supported = state_0a000
sqlstate K.er_alter_operation_not_supported_reason = state_0a000
sqlstate K.er_wrong_value_count = 0x32 ∷ 0x31 ∷ 0x53 ∷ 0x30 ∷ 0x31 ∷ []
sqlstate K.er_wrong_value_count_on_row = 0x32 ∷ 0x31 ∷ 0x53 ∷ 0x30 ∷ 0x31 ∷ []
sqlstate K.er_access_denied_error = 0x32 ∷ 0x38 ∷ 0x30 ∷ 0x30 ∷ 0x30 ∷ []
sqlstate K.er_access_denied_no_password_error = 0x32 ∷ 0x38 ∷ 0x30 ∷ 0x30 ∷ 0x30 ∷ []
sqlstate K.er_access_denied_change_user_error = 0x32 ∷ 0x38 ∷ 0x30 ∷ 0x30 ∷ 0x30 ∷ []
sqlstate K.er_sp_cursor_already_open = 0x32 ∷ 0x34 ∷ 0x30 ∷ 0x30 ∷ 0x30 ∷ []
sqlstate K.er_sp_cursor_not_open = 0x32 ∷ 0x34 ∷ 0x30 ∷ 0x30 ∷ 0x30 ∷ []
sqlstate K.er_query_interrupted = 0x37 ∷ 0x30 ∷ 0x31 ∷ 0x30 ∷ 0x30 ∷ []
sqlstate K.er_sp_noreturnend = 0x32 ∷ 0x46 ∷ 0x30 ∷ 0x30 ∷ 0x35 ∷ []
sqlstate K.er_con_count_error = 0x30 ∷ 0x38 ∷ 0x30 ∷ 0x30 ∷ 0x34 ∷ []
sqlstate K.er_not_supported_auth_mode = 0x30 ∷ 0x38 ∷ 0x30 ∷ 0x30 ∷ 0x34 ∷ []
sqlstate K.er_dbaccess_denied_error = state_42000
sqlstate K.er_bad_db_error = state_42000
sqlstate K.er_wrong_field_with_group = state_42000
sqlstate K.er_wrong_group_field = state_42000
sqlstate K.er_wrong_sum_select = state_42000
sqlstate K.er_too_long_ident = state_42000
sqlstate K.er_dup_keyname = state_42000
sqlstate K.er_wrong_field_spec = state_42000
sqlstate K.er_parse_error = state_42000
sqlstate K.er_empty_query = state_42000
sqlstate K.er_nonuniq_table = state_42000
sqlstate K.er_invalid_default = state_42000
sqlstate K.er_multiple_pri_key = state_42000
sqlstate K.er_too_many_keys = state_42000
sqlstate K.er_too_many_key_parts = state_42000
sqlstate K.er_too_long_key = state_42000
sqlstate K.er_key_column_does_not_exits = state_42000
sqlstate K.er_blob_used_as_key = state_42000
sqlstate K.er_too_big_fieldlength = state_42000
sqlstate K.er_wrong_auto_key = state_42000
sqlstate K.er_wrong_field_terminators = state_42000
sqlstate K.er_blobs_and_no_terminated = state_42000
sqlstate K.er_cant_remove_all_fields = state_42000
sqlstate K.er_cant_drop_field_or_key = state_42000
sqlstate K.er_blob_cant_have_default = state_42000
sqlstate K.er_wrong_db_name = state_42000
sqlstate K.er_wrong_table_name = state_42000
sqlstate K.er_too_big_select = state_42000
sqlstate K.er_unknown_procedure = state_42000
sqlstate K.er_wrong_paramcount_to_procedure = state_42000
sqlstate K.er_field_specified_twice = state_42000
sqlstate K.er_unsupported_extension = state_42000
sqlstate K.er_table_must_have_columns = state_42000
sqlstate K.er_unknown_character_set = state_42000
sqlstate K.er_too_big_rowsize = state_42000
sqlstate K.er_wrong_outer_join = state_42000
sqlstate K.er_null_column_in_index = state_42000
sqlstate K.er_password_anonymous_user = state_42000
sqlstate K.er_password_not_allowed = state_42000
sqlstate K.er_password_no_match = state_42000
sqlstate K.er_regexp_error = state_42000
sqlstate K.er_mix_of_group_func_and_fields = state_42000
sqlstate K.er_nonexisting_grant = state_42000
sqlstate K.er_tableaccess_denied_error = state_42000
sqlstate K.er_columnaccess_denied_error = state_42000
sqlstate K.er_illegal_grant_for_table = state_42000
sqlstate K.er_grant_wrong_host_or_user = state_42000
sqlstate K.er_nonexisting_table_grant = state_42000
sqlstate K.er_not_allowed_command = state_42000
sqlstate K.er_syntax_error = state_42000
sqlstate K.er_too_long_string = state_42000
sqlstate K.er_table_cant_handle_blob = state_42000
sqlstate K.er_table_cant_handle_auto_increment = state_42000
sqlstate K.er_wrong_column_name = state_42000
sqlstate K.er_wrong_key_column = state_42000
sqlstate K.er_blob_key_without_length = state_42000
sqlstate K.er_primary_cant_have_null = state_42000
sqlstate K.er_too_many_rows = state_42000
sqlstate K.er_requires_primary_key = state_42000
sqlstate K.er_key_does_not_exits = state_42000
sqlstate K.er_check_no_such_table = state_42000
sqlstate K.er_check_not_implemented = state_42000
sqlstate K.er_too_many_user_connections = state_42000
sqlstate K.er_no_permission_to_create_user = state_42000
sqlstate K.er_user_limit_reached = state_42000
sqlstate K.er_specific_access_denied_error = state_42000
sqlstate K.er_no_default = state_42000
sqlstate K.er_wrong_value_for_var = state_42000
sqlstate K.er_wrong_type_for_var = state_42000
sqlstate K.er_cant_use_option_here = state_42000
sqlstate K.er_not_supported_yet = state_42000
sqlstate K.er_wrong_fk_def = state_42000
sqlstate K.er_derived_must_have_alias = state_42000
sqlstate K.er_tablename_not_allowed_here = state_42000
sqlstate K.er_spatial_cant_have_null = state_42000
sqlstate K.er_collation_charset_mismatch = state_42000
sqlstate K.er_wrong_name_for_index = state_42000
sqlstate K.er_wrong_name_for_catalog = state_42000
sqlstate K.er_unknown_storage_engine = state_42000
sqlstate K.er_sp_already_exists = state_42000
sqlstate K.er_sp_does_not_exist = state_42000
sqlstate K.er_sp_lilabel_mismatch = state_42000
sqlstate K.er_sp_label_redefine = state_42000
sqlstate K.er_sp_label_mismatch = state_42000
sqlstate K.er_sp_badreturn = state_42000
sqlstate K.er_update_log_deprecated_ignored = state_42000
sqlstate K.er_update_log_deprecated_translated = state_42000
sqlstate K.er_sp_wrong_no_of_args = state_42000
sqlstate K.er_sp_cond_mismatch = state_42000
sqlstate K.er_sp_noreturn = state_42000
sqlstate K.er_sp_bad_cursor_query = state_42000
sqlstate K.er_sp_bad_cursor_select = state_42000
sqlstate K.er_sp_cursor_mismatch = state_42000
sqlstate K.er_sp_undeclared_var = state_42000
sqlstate K.er_sp_dup_param = state_42000
sqlstate K.er_sp_dup_var = state_42000
sqlstate K.er_sp_dup_cond = state_42000
sqlstate K.er_sp_dup_curs = state_42000
sqlstate K.er_sp_varcond_after_curshndlr = state_42000
sqlstate K.er_sp_cursor_after_handler = state_42000
sqlstate K.er_procaccess_denied_error = state_42000
sqlstate K.er_nonexisting_proc_grant = state_42000
sqlstate K.er_sp_bad_sqlstate = state_42000
sqlstate K.er_cant_create_user_with_grant = state_42000
sqlstate K.er_sp_dup_handler = state_42000
sqlstate K.er_sp_not_var_arg = state_42000
sqlstate K.er_too_big_scale = state_42000
sqlstate K.er_too_big_precision = state_42000
sqlstate K.er_m_bigger_than_d = state_42000
sqlstate K.er_too_long_body = state_42000
sqlstate K.er_too_big_displaywidth = state_42000
sqlstate K.er_sp_bad_var_shadow = state_42000
sqlstate K.er_sp_wrong_name = state_42000
sqlstate K.er_sp_no_aggregate = state_42000
sqlstate K.er_max_prepared_stmt_count_reached = state_42000
sqlstate K.er_non_grouping_field_used = state_42000
sqlstate K.er_wrong_paramcount_to_native_fct = state_42000
sqlstate K.er_wrong_parameters_to_native_fct = state_42000
sqlstate K.er_wrong_parameters_to_stored_fct = state_42000
sqlstate K.er_func_inexistent_name_collision = state_42000
sqlstate K.er_dup_signal_set = state_42000
sqlstate K.er_spatial_must_have_geom_col = state_42000
sqlstate K.er_truncate_illegal_fk = state_42000
sqlstate K.er_resignal_without_active_handler = 0x30 ∷ 0x4b ∷ 0x30 ∷ 0x30 ∷ 0x30 ∷ []
sqlstate K.er_cant_change_tx_isolation = 0x32 ∷ 0x35 ∷ 0x30 ∷ 0x30 ∷ 0x31 ∷ []
sqlstate K.er_invalid_use_of_null = 0x32 ∷ 0x32 ∷ 0x30 ∷ 0x30 ∷ 0x34 ∷ []
sqlstate K.er_warn_null_to_notnull = 0x32 ∷ 0x32 ∷ 0x30 ∷ 0x30 ∷ 0x34 ∷ []
sqlstate K.er_sp_case_not_found = 0x32 ∷ 0x30 ∷ 0x30 ∷ 0x30 ∷ 0x30 ∷ []
sqlstate K.er_division_by_zer = 0x32 ∷ 0x32 ∷ 0x30 ∷ 0x31 ∷ 0x32 ∷ []
sqlstate K.er_bad_field_error = 0x34 ∷ 0x32 ∷ 0x53 ∷ 0x32 ∷ 0x32 ∷ []
sqlstate K.er_illegal_reference = 0x34 ∷ 0x32 ∷ 0x53 ∷ 0x32 ∷ 0x32 ∷ []
sqlstate K.er_xaer_inval = 0x58 ∷ 0x41 ∷ 0x45 ∷ 0x30 ∷ 0x35 ∷ []
sqlstate K.er_xaer_nota = 0x58 ∷ 0x41 ∷ 0x45 ∷ 0x30 ∷ 0x34 ∷ []
sqlstate K.er_xa_rbrollback = 0x58 ∷ 0x41 ∷ 0x31 ∷ 0x30 ∷ 0x30 ∷ []
sqlstate K.er_data_too_long = 0x32 ∷ 0x32 ∷ 0x30 ∷ 0x30 ∷ 0x31 ∷ []
sqlstate K.er_lock_deadlock = 0x34 ∷ 0x30 ∷ 0x30 ∷ 0x30 ∷ 0x31 ∷ []
sqlstate K.er_wrong_number_of_columns_in_select = 0x32 ∷ 0x31 ∷ 0x30 ∷ 0x30 ∷ 0x30 ∷ []
sqlstate K.er_operand_columns = 0x32 ∷ 0x31 ∷ 0x30 ∷ 0x30 ∷ 0x30 ∷ []
sqlstate K.er_subquery_no_1_row = 0x32 ∷ 0x31 ∷ 0x30 ∷ 0x30 ∷ 0x30 ∷ []
sqlstate _ = state_hy000
