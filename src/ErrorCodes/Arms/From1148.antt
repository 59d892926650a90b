-- ===== src/ErrorCodes/Arms/From1148.antt =====
-- mysql/src/errorcodes.rs: arms of `ErrorKind::from(x: u16)`, from 1148.
use opensrv.Common.{ℕ, List, [], ◌∷◌}
use opensrv.ErrorCodes.Kinds as K
use opensrv.ErrorCodes.Kinds.{ErrorKind}

abbrev pub arms_from_1148 : List (ℕ × ErrorKind)
arms_from_1148 =
    (1148, K.er_not_allowed_command)
    ∷ (1149, K.er_syntax_error)
    ∷ (1150, K.er_delayed_cant_change_lock)
    ∷ (1151, K.er_too_many_delayed_threads)
    ∷ (1152, K.er_aborting_connection)
    ∷ (1153, K.er_net_packet_too_large)
    ∷ (1154, K.er_net_read_error_from_pipe)
    ∷ (1155, K.er_net_fcntl_error)
    ∷ (1156, K.er_net_packets_out_of_order)
    ∷ (1157, K.er_net_uncompress_error)
    ∷ (1158, K.er_net_read_error)
    ∷ (1159, K.er_net_read_interrupted)
    ∷ (1160, K.er_net_error_on_write)
    ∷ (1161, K.er_net_write_interrupted)
    ∷ (1162, K.er_too_long_string)
    ∷ (1163, K.er_table_cant_handle_blob)
    ∷ (1164, K.er_table_cant_handle_auto_increment)
    ∷ (1165, K.er_delayed_insert_table_locked)
    ∷ (1166, K.er_wrong_column_name)
    ∷ (1167, K.er_wrong_key_column)
    ∷ (1168, K.er_wrong_mrg_table)
    ∷ (1169, K.er_dup_unique)
    ∷ (1170, K.er_blob_key_without_length)
    ∷ (1171, K.er_primary_cant_have_null)
    ∷ (1172, K.er_too_many_rows)
    ∷ (1173, K.er_requires_primary_key)
    ∷ (1174, K.er_no_raid_compiled)
    ∷ (1175, K.er_update_without_key_in_safe_mode)
    ∷ (1176, K.er_key_does_not_exits)
    ∷ (1177, K.er_check_no_such_table)
    ∷ (1178, K.er_check_not_implemented)
    ∷ (1179, K.er_cant_do_this_during_an_transaction)
    ∷ (1180, K.er_error_during_commit)
    ∷ (1181, K.er_error_during_rollback)
    ∷ (1182, K.er_error_during_flush_logs)
    ∷ (1183, K.er_error_during_checkpoint)
    ∷ (1184, K.er_new_aborting_connection)
    ∷ (1185, K.er_dump_not_implemented)
    ∷ (1186, K.er_flush_master_binlog_closed)
    ∷ (1187, K.er_index_rebuild)
    ∷ (1188, K.er_master)
    ∷ (1189, K.er_master_net_read)
    ∷ (1190, K.er_master_net_write)
    ∷ (1191, K.er_ft_matching_key_not_found)
    ∷ (1192, K.er_lock_or_active_transaction)
    ∷ (1193, K.er_unknown_system_variable)
    ∷ (1194, K.er_crashed_on_usage)
    ∷ (1195, K.er_crashed_on_repair)
    ∷ (1196, K.er_warning_not_complete_rollback)
    ∷ (1197, K.er_trans_cache_full)
    ∷ (1198, K.er_slave_must_stop)
    ∷ (1199, K.er_slave_not_running)
    ∷ (1200, K.er_bad_slave)
    ∷ (1201, K.er_master_inf)
    ∷ (1202, K.er_slave_thread)
    ∷ (1203, K.er_too_many_user_connections)
    ∷ (1204, K.er_set_constants_only)
    ∷ (1205, K.er_lock_wait_timeout)
    ∷ (1206, K.er_lock_table_full)
    ∷ (1207, K.er_read_only_transaction)
    ∷ (1208, K.er_drop_db_with_read_lock)
    ∷ (1209, K.er_create_db_with_read_lock)
    ∷ (1210, K.er_wrong_arguments)
    ∷ (1211, K.er_no_permission_to_create_user)
    ∷ (1212, K.er_union_tables_in_different_dir)
    ∷ (1213, K.er_lock_deadlock)
    ∷ (1214, K.er_table_cant_handle_ft)
    ∷ (1215, K.er_cannot_add_foreign)
    ∷ (1216, K.er_no_referenced_row)
    ∷ (1217, K.er_row_is_referenced)
    ∷ (1218, K.er_connect_to_master)
    ∷ (1219, K.er_query_on_master)
    ∷ (1220, K.er_error_when_executing_command)
    ∷ (1221, K.er_wrong_usage)
    ∷ (1222, K.er_wrong_number_of_columns_in_select)
    ∷ (1223, K.er_cant_update_with_readlock)
    ∷ (1224, K.er_mixing_not_allowed)
    ∷ (1225, K.er_dup_argument)
    ∷ (1226, K.er_user_limit_reached)
    ∷ (1227, K.er_specific_access_denied_error)
    ∷ (1228, K.er_local_variable)
    ∷ (1229, K.er_global_variable)
    ∷ (1230, K.er_no_default)
    ∷ (1231, K.er_wrong_value_for_var)
    ∷ (1232, K.er_wrong_type_for_var)
    ∷ (1233, K.er_var_cant_be_read)
    ∷ (1234, K.er_cant_use_option_here)
    ∷ (1235, K.er_not_supported_yet)
    ∷ (1236, K.er_master_fatal_error_reading_binlog)
    ∷ (1237, K.er_slave_ignored_table)
    ∷ (1238, K.er_incorrect_global_local_var)
    ∷ (1239, K.er_wrong_fk_def)
    ∷ (1240, K.er_key_ref_do_not_match_table_ref)
    ∷ (1241, K.er_operand_columns)
    ∷ (1242, K.er_subquery_no_1_row)
    ∷ (1243, K.er_unknown_stmt_handler)
    ∷ (1244, K.er_corrupt_help_db)
    ∷ (1245, K.er_cyclic_reference)
    ∷ (1246, K.er_auto_convert)
    ∷ (1247, K.er_illegal_reference)
    ∷ (1248, K.er_derived_must_have_alias)
    ∷ (1249, K.er_select_reduced)
    ∷ (1250, K.er_tablename_not_allowed_here)
    ∷ (1251, K.er_not_supported_auth_mode)
    ∷ (1252, K.er_spatial_cant_have_null)
    ∷ (1253, K.er_collation_charset_mismatch)
    ∷ (1254, K.er_slave_was_running)
    ∷ (1255, K.er_slave_was_not_running)
    ∷ (1256, K.er_too_big_for_uncompress)
    ∷ (1257, K.er_zlib_z_mem_error)
    ∷ (1258, K.er_zlib_z_buf_error)
    ∷ (1259, K.er_zlib_z_data_error)
    ∷ (1260, K.er_cut_value_group_concat)
    ∷ (1261, K.er_warn_too_few_records)
    ∷ (1262, K.er_warn_too_many_records)
    ∷ (1263, K.er_warn_null_to_notnull)
    ∷ (1264, K.er_warn_data_out_of_range)
    ∷ (1265, K.warn_data_truncated)
    ∷ (1266, K.er_warn_using_other_handler)
    ∷ (1267, K.er_cant_aggregate_2collations)
    ∷ (1268, K.er_drop_user)
    ∷ (1269, K.er_revoke_grants)
    ∷ (1270, K.er_cant_aggregate_3collations)
    ∷ (1271, K.er_cant_aggregate_ncollations)
    ∷ (1272, K.er_variable_is_not_struct)
    ∷ (1273, K.er_unknown_collation)
    ∷ (1274, K.er_slave_ignored_ssl_params)
    ∷ (1275, K.er_server_is_in_secure_auth_mode)
    ∷ (1276, K.er_warn_field_resolved)
    ∷ (1277, K.er_bad_slave_until_cond)
    ∷ (1278, K.er_missing_skip_slave)
    ∷ (1279, K.er_until_cond_ignored)
    ∷ (1280, K.er_wrong_name_for_index)
    ∷ (1281, K.er_wrong_name_for_catalog)
    ∷ (1282, K.er_warn_qc_resize)
    ∷ (1283, K.er_bad_ft_column)
    ∷ (1284, K.er_unknown_key_cache)
    ∷ (1285, K.er_warn_hostname_wont_work)
    ∷ (1286, K.er_unknown_storage_engine)
    ∷ (1287, K.er_warn_deprecated_syntax)
    ∷ (1288, K.er_non_updatable_table)
    ∷ (1289, K.er_feature_disabled)
    ∷ (1290, K.er_option_prevents_statement)
    ∷ (1291, K.er_duplicated_value_in_type)
    ∷ (1292, K.er_truncated_wrong_value)
    ∷ (1293, K.er_too_much_auto_timestamp_cols)
    ∷ (1294, K.er_invalid_on_update)
    ∷ (1295, K.er_unsupported_ps)
    ∷ []
