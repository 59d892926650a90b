-- ===== src/ErrorCodes/Kinds.antt =====
-- mysql/src/errorcodes.rs: `ErrorKind`, the error codes by name.
pub data ErrorKind : Type 0 where
  er_hashchk er_nisamchk er_no er_yes er_cant_create_file er_cant_create_table : ErrorKind
  er_cant_create_db er_db_create_exists er_db_drop_exists er_db_drop_delete : ErrorKind
  er_db_drop_rmdir er_cant_delete_file er_cant_find_system_rec er_cant_get_stat : ErrorKind
  er_cant_get_wd er_cant_lock er_cant_open_file er_file_not_found er_cant_read_dir : ErrorKind
  er_cant_set_wd er_checkread er_disk_full er_dup_key er_error_on_close er_error_on_read : ErrorKind
  er_error_on_rename er_error_on_write er_file_used er_filsort_abort er_form_not_found : ErrorKind
  er_get_errn er_illegal_ha er_key_not_found er_not_form_file er_not_keyfile : ErrorKind
  er_old_keyfile er_open_as_readonly er_outofmemory er_out_of_sortmemory : ErrorKind
  er_unexpected_eof er_con_count_error er_out_of_resources er_bad_host_error : ErrorKind
  er_handshake_error er_dbaccess_denied_error er_access_denied_error er_no_db_error : ErrorKind
  er_unknown_com_error er_bad_null_error er_bad_db_error er_table_exists_error : ErrorKind
  er_bad_table_error er_non_uniq_error er_server_shutdown er_bad_field_error : ErrorKind
  er_wrong_field_with_group er_wrong_group_field er_wrong_sum_select : ErrorKind
  er_wrong_value_count er_too_long_ident er_dup_fieldname er_dup_keyname er_dup_entry : ErrorKind
  er_wrong_field_spec er_parse_error er_empty_query er_nonuniq_table er_invalid_default : ErrorKind
  er_multiple_pri_key er_too_many_keys er_too_many_key_parts er_too_long_key : ErrorKind
  er_key_column_does_not_exits er_blob_used_as_key er_too_big_fieldlength : ErrorKind
  er_wrong_auto_key er_ready er_normal_shutdown er_got_signal er_shutdown_complete : ErrorKind
  er_forcing_close er_ipsock_error er_no_such_index er_wrong_field_terminators : ErrorKind
  er_blobs_and_no_terminated er_textfile_not_readable er_file_exists_error er_load_inf : ErrorKind
  er_alter_inf er_wrong_sub_key er_cant_remove_all_fields er_cant_drop_field_or_key : ErrorKind
  er_insert_inf er_update_table_used er_no_such_thread er_kill_denied_error : ErrorKind
  er_no_tables_used er_too_big_set er_no_unique_logfile er_table_not_locked_for_write : ErrorKind
  er_table_not_locked er_blob_cant_have_default er_wrong_db_name er_wrong_table_name : ErrorKind
  er_too_big_select er_unknown_error er_unknown_procedure : ErrorKind
  er_wrong_paramcount_to_procedure er_wrong_parameters_to_procedure er_unknown_table : ErrorKind
  er_field_specified_twice er_invalid_group_func_use er_unsupported_extension : ErrorKind
  er_table_must_have_columns er_record_file_full er_unknown_character_set : ErrorKind
  er_too_many_tables er_too_many_fields er_too_big_rowsize er_stack_overrun : ErrorKind
  er_wrong_outer_join er_null_column_in_index er_cant_find_udf er_cant_initialize_udf : ErrorKind
  er_udf_no_paths er_udf_exists er_cant_open_library er_cant_find_dl_entry : ErrorKind
  er_function_not_defined er_host_is_blocked er_host_not_privileged : ErrorKind
  er_password_anonymous_user er_password_not_allowed er_password_no_match er_update_inf : ErrorKind
  er_cant_create_thread er_wrong_value_count_on_row er_cant_reopen_table : ErrorKind
  er_invalid_use_of_null er_regexp_error er_mix_of_group_func_and_fields : ErrorKind
  er_nonexisting_grant er_tableaccess_denied_error er_columnaccess_denied_error : ErrorKind
  er_illegal_grant_for_table er_grant_wrong_host_or_user er_no_such_table : ErrorKind
  er_nonexisting_table_grant er_not_allowed_command er_syntax_error : ErrorKind
  er_delayed_cant_change_lock er_too_many_delayed_threads er_aborting_connection : ErrorKind
  er_net_packet_too_large er_net_read_error_from_pipe er_net_fcntl_error : ErrorKind
  er_net_packets_out_of_order er_net_uncompress_error er_net_read_error : ErrorKind
  er_net_read_interrupted er_net_error_on_write er_net_write_interrupted : ErrorKind
  er_too_long_string er_table_cant_handle_blob er_table_cant_handle_auto_increment : ErrorKind
  er_delayed_insert_table_locked er_wrong_column_name er_wrong_key_column : ErrorKind
  er_wrong_mrg_table er_dup_unique er_blob_key_without_length er_primary_cant_have_null : ErrorKind
  er_too_many_rows er_requires_primary_key er_no_raid_compiled : ErrorKind
  er_update_without_key_in_safe_mode er_key_does_not_exits er_check_no_such_table : ErrorKind
  er_check_not_implemented er_cant_do_this_during_an_transaction er_error_during_commit : ErrorKind
  er_error_during_rollback er_error_during_flush_logs er_error_during_checkpoint : ErrorKind
  er_new_aborting_connection er_dump_not_implemented er_flush_master_binlog_closed : ErrorKind
  er_index_rebuild er_master er_master_net_read er_master_net_write : ErrorKind
  er_ft_matching_key_not_found er_lock_or_active_transaction er_unknown_system_variable : ErrorKind
  er_crashed_on_usage er_crashed_on_repair er_warning_not_complete_rollback : ErrorKind
  er_trans_cache_full er_slave_must_stop er_slave_not_running er_bad_slave er_master_inf : ErrorKind
  er_slave_thread er_too_many_user_connections er_set_constants_only : ErrorKind
  er_lock_wait_timeout er_lock_table_full er_read_only_transaction : ErrorKind
  er_drop_db_with_read_lock er_create_db_with_read_lock er_wrong_arguments : ErrorKind
  er_no_permission_to_create_user er_union_tables_in_different_dir er_lock_deadlock : ErrorKind
  er_table_cant_handle_ft er_cannot_add_foreign er_no_referenced_row : ErrorKind
  er_row_is_referenced er_connect_to_master er_query_on_master : ErrorKind
  er_error_when_executing_command er_wrong_usage er_wrong_number_of_columns_in_select : ErrorKind
  er_cant_update_with_readlock er_mixing_not_allowed er_dup_argument : ErrorKind
  er_user_limit_reached er_specific_access_denied_error er_local_variable : ErrorKind
  er_global_variable er_no_default er_wrong_value_for_var er_wrong_type_for_var : ErrorKind
  er_var_cant_be_read er_cant_use_option_here er_not_supported_yet : ErrorKind
  er_master_fatal_error_reading_binlog er_slave_ignored_table : ErrorKind
  er_incorrect_global_local_var er_wrong_fk_def er_key_ref_do_not_match_table_ref : ErrorKind
  er_operand_columns er_subquery_no_1_row er_unknown_stmt_handler er_corrupt_help_db : ErrorKind
  er_cyclic_reference er_auto_convert er_illegal_reference er_derived_must_have_alias : ErrorKind
  er_select_reduced er_tablename_not_allowed_here er_not_supported_auth_mode : ErrorKind
  er_spatial_cant_have_null er_collation_charset_mismatch er_slave_was_running : ErrorKind
  er_slave_was_not_running er_too_big_for_uncompress er_zlib_z_mem_error : ErrorKind
  er_zlib_z_buf_error er_zlib_z_data_error er_cut_value_group_concat : ErrorKind
  er_warn_too_few_records er_warn_too_many_records er_warn_null_to_notnull : ErrorKind
  er_warn_data_out_of_range warn_data_truncated er_warn_using_other_handler : ErrorKind
  er_cant_aggregate_2collations er_drop_user er_revoke_grants : ErrorKind
  er_cant_aggregate_3collations er_cant_aggregate_ncollations er_variable_is_not_struct : ErrorKind
  er_unknown_collation er_slave_ignored_ssl_params er_server_is_in_secure_auth_mode : ErrorKind
  er_warn_field_resolved er_bad_slave_until_cond er_missing_skip_slave : ErrorKind
  er_until_cond_ignored er_wrong_name_for_index er_wrong_name_for_catalog : ErrorKind
  er_warn_qc_resize er_bad_ft_column er_unknown_key_cache er_warn_hostname_wont_work : ErrorKind
  er_unknown_storage_engine er_warn_deprecated_syntax er_non_updatable_table : ErrorKind
  er_feature_disabled er_option_prevents_statement er_duplicated_value_in_type : ErrorKind
  er_truncated_wrong_value er_too_much_auto_timestamp_cols er_invalid_on_update : ErrorKind
  er_unsupported_ps er_get_errmsg er_get_temporary_errmsg er_unknown_time_zone : ErrorKind
  er_warn_invalid_timestamp er_invalid_character_string : ErrorKind
  er_warn_allowed_packet_overflowed er_conflicting_declarations : ErrorKind
  er_sp_no_recursive_create er_sp_already_exists er_sp_does_not_exist er_sp_drop_failed : ErrorKind
  er_sp_store_failed er_sp_lilabel_mismatch er_sp_label_redefine er_sp_label_mismatch : ErrorKind
  er_sp_uninit_var er_sp_badselect er_sp_badreturn er_sp_badstatement : ErrorKind
  er_update_log_deprecated_ignored er_update_log_deprecated_translated : ErrorKind
  er_query_interrupted er_sp_wrong_no_of_args er_sp_cond_mismatch er_sp_noreturn : ErrorKind
  er_sp_noreturnend er_sp_bad_cursor_query er_sp_bad_cursor_select er_sp_cursor_mismatch : ErrorKind
  er_sp_cursor_already_open er_sp_cursor_not_open er_sp_undeclared_var : ErrorKind
  er_sp_wrong_no_of_fetch_args er_sp_fetch_no_data er_sp_dup_param er_sp_dup_var : ErrorKind
  er_sp_dup_cond er_sp_dup_curs er_sp_cant_alter er_sp_subselect_nyi : ErrorKind
  er_stmt_not_allowed_in_sf_or_trg er_sp_varcond_after_curshndlr : ErrorKind
  er_sp_cursor_after_handler er_sp_case_not_found er_fparser_too_big_file : ErrorKind
  er_fparser_bad_header er_fparser_eof_in_comment er_fparser_error_in_parameter : ErrorKind
  er_fparser_eof_in_unknown_parameter er_view_no_explain er_frm_unknown_type : ErrorKind
  er_wrong_object er_nonupdateable_column er_view_select_derived er_view_select_clause : ErrorKind
  er_view_select_variable er_view_select_tmptable er_view_wrong_list er_warn_view_merge : ErrorKind
  er_warn_view_without_key er_view_invalid er_sp_no_drop_sp er_sp_goto_in_hndlr : ErrorKind
  er_trg_already_exists er_trg_does_not_exist er_trg_on_view_or_temp_table : ErrorKind
  er_trg_cant_change_row er_trg_no_such_row_in_trg er_no_default_for_field : ErrorKind
  er_division_by_zer er_truncated_wrong_value_for_field er_illegal_value_for_type : ErrorKind
  er_view_nonupd_check er_view_check_failed er_procaccess_denied_error er_relay_log_fail : ErrorKind
  er_passwd_length er_unknown_target_binlog er_io_err_log_index_read : ErrorKind
  er_binlog_purge_prohibited er_fseek_fail er_binlog_purge_fatal_err er_log_in_use : ErrorKind
  er_log_purge_unknown_err er_relay_log_init er_no_binary_logging er_reserved_syntax : ErrorKind
  er_wsas_failed er_diff_groups_proc er_no_group_for_proc er_order_with_proc : ErrorKind
  er_logging_prohibit_changing_of er_no_file_mapping er_wrong_magic er_ps_many_param : ErrorKind
  er_key_part_0 er_view_checksum er_view_multiupdate er_view_no_insert_field_list : ErrorKind
  er_view_delete_merge_view er_cannot_user er_xaer_nota er_xaer_inval er_xaer_rmfail : ErrorKind
  er_xaer_outside er_xaer_rmerr er_xa_rbrollback er_nonexisting_proc_grant : ErrorKind
  er_proc_auto_grant_fail er_proc_auto_revoke_fail er_data_too_long er_sp_bad_sqlstate : ErrorKind
  er_startup er_load_from_fixed_size_rows_to_var er_cant_create_user_with_grant : ErrorKind
  er_wrong_value_for_type er_table_def_changed er_sp_dup_handler er_sp_not_var_arg : ErrorKind
  er_sp_no_retset er_cant_create_geometry_object er_failed_routine_break_binlog : ErrorKind
  er_binlog_unsafe_routine er_binlog_create_routine_need_super : ErrorKind
  er_exec_stmt_with_open_cursor er_stmt_has_no_open_cursor : ErrorKind
  er_commit_not_allowed_in_sf_or_trg er_no_default_for_view_field er_sp_no_recursion : ErrorKind
  er_too_big_scale er_too_big_precision er_m_bigger_than_d er_wrong_lock_of_system_table : ErrorKind
  er_connect_to_foreign_data_source er_query_on_foreign_data_source : ErrorKind
  er_foreign_data_source_doesnt_exist er_foreign_data_string_invalid_cant_create : ErrorKind
  er_foreign_data_string_invalid er_cant_create_federated_table er_trg_in_wrong_schema : ErrorKind
  er_stack_overrun_need_more er_too_long_body er_warn_cant_drop_default_keycache : ErrorKind
  er_too_big_displaywidth er_xaer_dupid er_datetime_function_overflow : ErrorKind
  er_cant_update_used_table_in_sf_or_trg er_view_prevent_update er_ps_no_recursion : ErrorKind
  er_sp_cant_set_autocommit er_malformed_definer er_view_frm_no_user er_view_other_user : ErrorKind
  er_no_such_user er_forbid_schema_change er_row_is_referenced_2 er_no_referenced_row_2 : ErrorKind
  er_sp_bad_var_shadow er_trg_no_definer er_old_file_format er_sp_recursion_limit : ErrorKind
  er_sp_proc_table_corrupt er_sp_wrong_name er_table_needs_upgrade er_sp_no_aggregate : ErrorKind
  er_max_prepared_stmt_count_reached er_view_recursive er_non_grouping_field_used : ErrorKind
  er_table_cant_handle_spkeys er_no_triggers_on_system_schema er_removed_spaces : ErrorKind
  er_autoinc_read_failed er_username er_hostname er_wrong_string_length : ErrorKind
  er_non_insertable_table er_admin_wrong_mrg_table : ErrorKind
  er_too_high_level_of_nesting_for_select er_name_becomes_empty er_ambiguous_field_term : ErrorKind
  er_foreign_server_exists er_foreign_server_doesnt_exist er_illegal_ha_create_option : ErrorKind
  er_partition_requires_values_error er_partition_wrong_values_error : ErrorKind
  er_partition_maxvalue_error er_partition_subpartition_error : ErrorKind
  er_partition_subpart_mix_error er_partition_wrong_no_part_error : ErrorKind
  er_partition_wrong_no_subpart_error er_wrong_expr_in_partition_func_error : ErrorKind
  er_no_const_expr_in_range_or_list_error er_field_not_found_part_error : ErrorKind
  er_list_of_fields_only_in_hash_error er_inconsistent_partition_info_error : ErrorKind
  er_partition_func_not_allowed_error er_partitions_must_be_defined_error : ErrorKind
  er_range_not_increasing_error er_inconsistent_type_of_functions_error : ErrorKind
  er_multiple_def_const_in_list_part_error er_partition_entry_error er_mix_handler_error : ErrorKind
  er_partition_not_defined_error er_too_many_partitions_error er_subpartition_error : ErrorKind
  er_cant_create_handler_file er_blob_field_in_part_func_error : ErrorKind
  er_unique_key_need_all_fields_in_pf er_no_parts_error : ErrorKind
  er_partition_mgmt_on_nonpartitioned er_foreign_key_on_partitioned : ErrorKind
  er_drop_partition_non_existent er_drop_last_partition : ErrorKind
  er_coalesce_only_on_hash_partition er_reorg_hash_only_on_same_n : ErrorKind
  er_reorg_no_param_error er_only_on_range_list_partition er_add_partition_subpart_error : ErrorKind
  er_add_partition_no_new_partition er_coalesce_partition_no_partition : ErrorKind
  er_reorg_partition_not_exist er_same_name_partition er_no_binlog_error : ErrorKind
  er_consecutive_reorg_partitions er_reorg_outside_range er_partition_function_failure : ErrorKind
  er_part_state_error er_limited_part_range er_plugin_is_not_loaded er_wrong_value : ErrorKind
  er_no_partition_for_given_value er_filegroup_option_only_once : ErrorKind
  er_create_filegroup_failed er_drop_filegroup_failed er_tablespace_auto_extend_error : ErrorKind
  er_wrong_size_number er_size_overflow_error er_alter_filegroup_failed : ErrorKind
  er_binlog_row_logging_failed er_binlog_row_wrong_table_def er_binlog_row_rbr_to_sbr : ErrorKind
  er_event_already_exists er_event_store_failed er_event_does_not_exist : ErrorKind
  er_event_cant_alter er_event_drop_failed er_event_interval_not_positive_or_too_big : ErrorKind
  er_event_ends_before_starts er_event_exec_time_in_the_past er_event_open_table_failed : ErrorKind
  er_event_neither_m_expr_nor_m_at er_col_count_doesnt_match_corrupted : ErrorKind
  er_cannot_load_from_table er_event_cannot_delete er_event_compile_error : ErrorKind
  er_event_same_name er_event_data_too_long er_drop_index_fk : ErrorKind
  er_warn_deprecated_syntax_with_ver er_cant_write_lock_log_table er_cant_lock_log_table : ErrorKind
  er_foreign_duplicate_key er_col_count_doesnt_match_please_update : ErrorKind
  er_temp_table_prevents_switch_out_of_rbr : ErrorKind
  er_stored_function_prevents_switch_binlog_format er_ndb_cant_switch_binlog_format : ErrorKind
  er_partition_no_temporary er_partition_const_domain_error : ErrorKind
  er_partition_function_is_not_allowed er_ddl_log_error er_null_in_values_less_than : ErrorKind
  er_wrong_partition_name er_cant_change_tx_isolation er_dup_entry_autoincrement_case : ErrorKind
  er_event_modify_queue_error er_event_set_var_error er_partition_merge_error : ErrorKind
  er_cant_activate_log er_rbr_not_available er_base64_decode_error : ErrorKind
  er_event_recursion_forbidden er_events_db_error er_only_integers_allowed : ErrorKind
  er_unsuported_log_engine er_bad_log_statement er_cant_rename_log_table : ErrorKind
  er_wrong_paramcount_to_native_fct er_wrong_parameters_to_native_fct : ErrorKind
  er_wrong_parameters_to_stored_fct er_native_fct_name_collision : ErrorKind
  er_dup_entry_with_key_name er_binlog_purge_emfile er_event_cannot_create_in_the_past : ErrorKind
  er_event_cannot_alter_in_the_past er_slave_incident : ErrorKind
  er_no_partition_for_given_value_silent er_binlog_unsafe_statement er_slave_fatal_error : ErrorKind
  er_slave_relay_log_read_failure er_slave_relay_log_write_failure : ErrorKind
  er_slave_create_event_failure er_slave_master_com_failure er_binlog_logging_impossible : ErrorKind
  er_view_no_creation_ctx er_view_invalid_creation_ctx er_sr_invalid_creation_ctx : ErrorKind
  er_trg_corrupted_file er_trg_no_creation_ctx er_trg_invalid_creation_ctx : ErrorKind
  er_event_invalid_creation_ctx er_trg_cant_open_table er_cant_create_sroutine : ErrorKind
  er_unused_11 er_no_format_description_event_before_binlog_statement : ErrorKind
  er_slave_corrupt_event er_load_data_invalid_column er_log_purge_no_file : ErrorKind
  er_xa_rbtimeout er_xa_rbdeadlock er_need_reprepare er_delayed_not_supported : ErrorKind
  warn_no_master_inf warn_option_ignored warn_plugin_delete_builtin warn_plugin_busy : ErrorKind
  er_variable_is_readonly er_warn_engine_transaction_rollback er_slave_heartbeat_failure : ErrorKind
  er_slave_heartbeat_value_out_of_range er_ndb_replication_schema_error : ErrorKind
  er_conflict_fn_parse_error er_exceptions_write_error er_too_long_table_comment : ErrorKind
  er_too_long_field_comment er_func_inexistent_name_collision er_database_name : ErrorKind
  er_table_name er_partition_name er_subpartition_name er_temporary_name er_renamed_name : ErrorKind
  er_too_many_concurrent_trxs warn_non_ascii_separator_not_implemented : ErrorKind
  er_debug_sync_timeout er_debug_sync_hit_limit er_dup_signal_set er_signal_warn : ErrorKind
  er_signal_not_found er_signal_exception er_resignal_without_active_handler : ErrorKind
  er_signal_bad_condition_type warn_cond_item_truncated er_cond_item_too_long : ErrorKind
  er_unknown_locale er_slave_ignore_server_ids er_query_cache_disabled : ErrorKind
  er_same_name_partition_field er_partition_column_list_error : ErrorKind
  er_wrong_type_column_value_error er_too_many_partition_func_fields_error : ErrorKind
  er_maxvalue_in_values_in er_too_many_values_error er_row_single_partition_field_error : ErrorKind
  er_field_type_not_allowed_as_partition_field er_partition_fields_too_long : ErrorKind
  er_binlog_row_engine_and_stmt_engine er_binlog_row_mode_and_stmt_engine : ErrorKind
  er_binlog_unsafe_and_stmt_engine er_binlog_row_injection_and_stmt_engine : ErrorKind
  er_binlog_stmt_mode_and_row_engine er_binlog_row_injection_and_stmt_mode : ErrorKind
  er_binlog_multiple_engines_and_self_logging_engine er_binlog_unsafe_limit : ErrorKind
  er_binlog_unsafe_insert_delayed er_binlog_unsafe_system_table : ErrorKind
  er_binlog_unsafe_autoinc_columns er_binlog_unsafe_udf er_binlog_unsafe_system_variable : ErrorKind
  er_binlog_unsafe_system_function er_binlog_unsafe_nontrans_after_trans : ErrorKind
  er_message_and_statement er_slave_conversion_failed er_slave_cant_create_conversion : ErrorKind
  er_inside_transaction_prevents_switch_binlog_format er_path_length : ErrorKind
  er_warn_deprecated_syntax_no_replacement er_wrong_native_table_structure : ErrorKind
  er_wrong_perfschema_usage er_warn_i_s_skipped_table : ErrorKind
  er_inside_transaction_prevents_switch_binlog_direct : ErrorKind
  er_stored_function_prevents_switch_binlog_direct er_spatial_must_have_geom_col : ErrorKind
  er_too_long_index_comment er_lock_aborted er_data_out_of_range : ErrorKind
  er_wrong_spvar_type_in_limit er_binlog_unsafe_multiple_engines_and_self_logging_engine : ErrorKind
  er_binlog_unsafe_mixed_statement er_inside_transaction_prevents_switch_sql_log_bin : ErrorKind
  er_stored_function_prevents_switch_sql_log_bin er_failed_read_from_par_file : ErrorKind
  er_values_is_not_int_type_error er_access_denied_no_password_error : ErrorKind
  er_set_password_auth_plugin er_grant_plugin_user_exists er_truncate_illegal_fk : ErrorKind
  er_plugin_is_permanent er_slave_heartbeat_value_out_of_range_min : ErrorKind
  er_slave_heartbeat_value_out_of_range_max er_stmt_cache_full : ErrorKind
  er_multi_update_key_conflict er_table_needs_rebuild warn_option_below_limit : ErrorKind
  er_index_column_too_long er_error_in_trigger_body er_error_in_unknown_trigger_body : ErrorKind
  er_index_corrupt er_undo_record_too_big er_binlog_unsafe_insert_ignore_select : ErrorKind
  er_binlog_unsafe_insert_select_update er_binlog_unsafe_replace_select : ErrorKind
  er_binlog_unsafe_create_ignore_select er_binlog_unsafe_create_replace_select : ErrorKind
  er_binlog_unsafe_update_ignore er_plugin_no_uninstall er_plugin_no_install : ErrorKind
  er_binlog_unsafe_write_autoinc_select er_binlog_unsafe_create_select_autoinc : ErrorKind
  er_binlog_unsafe_insert_two_keys er_table_in_fk_check er_unsupported_engine : ErrorKind
  er_binlog_unsafe_autoinc_not_first er_cannot_load_from_table_v2 : ErrorKind
  er_master_delay_value_out_of_range : ErrorKind
  er_only_fd_and_rbr_events_allowed_in_binlog_statement : ErrorKind
  er_partition_exchange_different_option er_partition_exchange_part_table : ErrorKind
  er_partition_exchange_temp_table er_partition_instead_of_subpartition : ErrorKind
  er_unknown_partition er_tables_different_metadata er_row_does_not_match_partition : ErrorKind
  er_binlog_cache_size_greater_than_max er_warn_index_not_applicable : ErrorKind
  er_partition_exchange_foreign_key er_no_such_key_value er_rpl_info_data_too_long : ErrorKind
  er_network_read_event_checksum_failure er_binlog_read_event_checksum_failure : ErrorKind
  er_binlog_stmt_cache_size_greater_than_max er_cant_update_table_in_create_table_select : ErrorKind
  er_partition_clause_on_nonpartitioned er_row_does_not_match_given_partition_set : ErrorKind
  er_no_such_partition_unused er_change_rpl_info_repository_failure : ErrorKind
  er_warning_not_complete_rollback_with_created_temp_table : ErrorKind
  er_warning_not_complete_rollback_with_dropped_temp_table : ErrorKind
  er_mts_feature_is_not_supported er_mts_updated_dbs_greater_max er_mts_cant_parallel : ErrorKind
  er_mts_inconsistent_data er_fulltext_not_supported_with_partitioning : ErrorKind
  er_da_invalid_condition_number er_insecure_plain_text er_insecure_change_master : ErrorKind
  er_foreign_duplicate_key_with_child_info er_foreign_duplicate_key_without_child_info : ErrorKind
  er_sqlthread_with_secure_slave er_table_has_no_ft : ErrorKind
  er_variable_not_settable_in_sf_or_trigger er_variable_not_settable_in_transaction : ErrorKind
  er_gtid_next_is_not_in_gtid_next_list : ErrorKind
  er_cant_change_gtid_next_in_transaction_when_gtid_next_list_is_null : ErrorKind
  er_set_statement_cannot_invoke_function : ErrorKind
  er_gtid_next_cant_be_automatic_if_gtid_next_list_is_non_null : ErrorKind
  er_skipping_logged_transaction er_malformed_gtid_set_specification : ErrorKind
  er_malformed_gtid_set_encoding er_malformed_gtid_specification er_gno_exhausted : ErrorKind
  er_bad_slave_auto_position er_auto_position_requires_gtid_mode_on : ErrorKind
  er_cant_do_implicit_commit_in_trx_when_gtid_next_is_set : ErrorKind
  er_gtid_mode_2_or_3_requires_disable_gtid_unsafe_statements_on : ErrorKind
  er_gtid_mode_requires_binlog er_cant_set_gtid_next_to_gtid_when_gtid_mode_is_off : ErrorKind
  er_cant_set_gtid_next_to_anonymous_when_gtid_mode_is_on : ErrorKind
  er_cant_set_gtid_next_list_to_non_null_when_gtid_mode_is_off : ErrorKind
  er_found_gtid_event_when_gtid_mode_is_off er_gtid_unsafe_non_transactional_table : ErrorKind
  er_gtid_unsafe_create_select er_gtid_unsafe_create_drop_temporary_table_in_transaction : ErrorKind
  er_gtid_mode_can_only_change_one_step_at_a_time er_master_has_purged_required_gtids : ErrorKind
  er_cant_set_gtid_next_when_owning_gtid er_unknown_explain_format : ErrorKind
  er_cant_execute_in_read_only_transaction er_too_long_table_partition_comment : ErrorKind
  er_slave_configuration er_innodb_ft_limit er_innodb_no_ft_temp_table : ErrorKind
  er_innodb_ft_wrong_docid_column er_innodb_ft_wrong_docid_index : ErrorKind
  er_innodb_online_log_too_big er_unknown_alter_algorithm er_unknown_alter_lock : ErrorKind
  er_mts_change_master_cant_run_with_gaps er_mts_recovery_failure er_mts_reset_workers : ErrorKind
  er_col_count_doesnt_match_corrupted_v2 er_slave_silent_retry_transaction : ErrorKind
  er_discard_fk_checks_running er_table_schema_mismatch er_table_in_system_tablespace : ErrorKind
  er_io_read_error er_io_write_error er_tablespace_missing er_tablespace_exists : ErrorKind
  er_tablespace_discarded er_internal_error er_innodb_import_error : ErrorKind
  er_innodb_index_corrupt er_invalid_year_column_length er_not_valid_password : ErrorKind
  er_must_change_password er_fk_no_index_child er_fk_no_index_parent : ErrorKind
  er_fk_fail_add_system er_fk_cannot_open_parent er_fk_incorrect_option er_fk_dup_name : ErrorKind
  er_password_format er_fk_column_cannot_drop er_fk_column_cannot_drop_child : ErrorKind
  er_fk_column_not_null er_dup_index er_fk_column_cannot_change : ErrorKind
  er_fk_column_cannot_change_child er_fk_cannot_delete_parent er_malformed_packet : ErrorKind
  er_read_only_mode er_gtid_next_type_undefined_group er_variable_not_settable_in_sp : ErrorKind
  er_cant_set_gtid_purged_when_gtid_mode_is_off : ErrorKind
  er_cant_set_gtid_purged_when_gtid_executed_is_not_empty : ErrorKind
  er_cant_set_gtid_purged_when_owned_gtids_is_not_empty er_gtid_purged_was_changed : ErrorKind
  er_gtid_executed_was_changed er_binlog_stmt_mode_and_no_repl_tables : ErrorKind
  er_alter_operation_not_supported er_alter_operation_not_supported_reason : ErrorKind
  er_alter_operation_not_supported_reason_copy : ErrorKind
  er_alter_operation_not_supported_reason_partition : ErrorKind
  er_alter_operation_not_supported_reason_fk_rename : ErrorKind
  er_alter_operation_not_supported_reason_column_type : ErrorKind
  er_alter_operation_not_supported_reason_fk_check : ErrorKind
  er_alter_operation_not_supported_reason_ignore : ErrorKind
  er_alter_operation_not_supported_reason_nopk : ErrorKind
  er_alter_operation_not_supported_reason_autoinc : ErrorKind
  er_alter_operation_not_supported_reason_hidden_fts : ErrorKind
  er_alter_operation_not_supported_reason_change_fts : ErrorKind
  er_alter_operation_not_supported_reason_fts : ErrorKind
  er_sql_slave_skip_counter_not_settable_in_gtid_mode er_dup_unknown_in_index : ErrorKind
  er_ident_causes_too_long_path er_alter_operation_not_supported_reason_not_null : ErrorKind
  er_must_change_password_login er_row_in_wrong_partition : ErrorKind
  er_mts_event_bigger_pending_jobs_size_max er_innodb_no_ft_uses_parser : ErrorKind
  er_binlog_logical_corruption er_warn_purge_log_in_use er_warn_purge_log_is_active : ErrorKind
  er_auto_increment_conflict warn_on_blockhole_in_rbr er_slave_mi_init_repository : ErrorKind
  er_slave_rli_init_repository er_access_denied_change_user_error er_innodb_read_only : ErrorKind
  er_stop_slave_sql_thread_timeout er_stop_slave_io_thread_timeout er_table_corrupt : ErrorKind
  er_temp_file_write_failure er_innodb_ft_aux_not_hex_id er_old_temporals_upgraded : ErrorKind
  er_innodb_forced_recovery er_aes_invalid_iv er_plugin_cannot_be_uninstalled : ErrorKind
  er_gtid_unsafe_binlog_splittable_statement_and_gtid_group : ErrorKind
  er_slave_has_more_gtids_than_master : ErrorKind
