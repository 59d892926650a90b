-- ===== src/ErrorCodes/Arms/From1296.antt =====
-- mysql/src/errorcodes.rs: arms of `ErrorKind::from(x: u16)`, from 1296.
use opensrv.Common.{ℕ, List, [], ◌∷◌}
use opensrv.ErrorCodes.Kinds as K
use opensrv.ErrorCodes.Kinds.{ErrorKind}

abbrev pub arms_from_1296 : List (ℕ × ErrorKind)
arms_from_1296 =
    (1296, K.er_get_errmsg)
    ∷ (1297, K.er_get_temporary_errmsg)
    ∷ (1298, K.er_unknown_time_zone)
    ∷ (1299, K.er_warn_invalid_timestamp)
    ∷ (1300, K.er_invalid_character_string)
    ∷ (1301, K.er_warn_allowed_packet_overflowed)
    ∷ (1302, K.er_conflicting_declarations)
    ∷ (1303, K.er_sp_no_recursive_create)
    ∷ (1304, K.er_sp_already_exists)
    ∷ (1305, K.er_sp_does_not_exist)
    ∷ (1306, K.er_sp_drop_failed)
    ∷ (1307, K.er_sp_store_failed)
    ∷ (1308, K.er_sp_lilabel_mismatch)
    ∷ (1309, K.er_sp_label_redefine)
    ∷ (1310, K.er_sp_label_mismatch)
    ∷ (1311, K.er_sp_uninit_var)
    ∷ (1312, K.er_sp_badselect)
    ∷ (1313, K.er_sp_badreturn)
    ∷ (1314, K.er_sp_badstatement)
    ∷ (1315, K.er_update_log_deprecated_ignored)
    ∷ (1316, K.er_update_log_deprecated_translated)
    ∷ (1317, K.er_query_interrupted)
    ∷ (1318, K.er_sp_wrong_no_of_args)
    ∷ (1319, K.er_sp_cond_mismatch)
    ∷ (1320, K.er_sp_noreturn)
    ∷ (1321, K.er_sp_noreturnend)
    ∷ (1322, K.er_sp_bad_cursor_query)
    ∷ (1323, K.er_sp_bad_cursor_select)
    ∷ (1324, K.er_sp_cursor_mismatch)
    ∷ (1325, K.er_sp_cursor_already_open)
    ∷ (1326, K.er_sp_cursor_not_open)
    ∷ (1327, K.er_sp_undeclared_var)
    ∷ (1328, K.er_sp_wrong_no_of_fetch_args)
    ∷ (1329, K.er_sp_fetch_no_data)
    ∷ (1330, K.er_sp_dup_param)
    ∷ (1331, K.er_sp_dup_var)
    ∷ (1332, K.er_sp_dup_cond)
    ∷ (1333, K.er_sp_dup_curs)
    ∷ (1334, K.er_sp_cant_alter)
    ∷ (1335, K.er_sp_subselect_nyi)
    ∷ (1336, K.er_stmt_not_allowed_in_sf_or_trg)
    ∷ (1337, K.er_sp_varcond_after_curshndlr)
    ∷ (1338, K.er_sp_cursor_after_handler)
    ∷ (1339, K.er_sp_case_not_found)
    ∷ (1340, K.er_fparser_too_big_file)
    ∷ (1341, K.er_fparser_bad_header)
    ∷ (1342, K.er_fparser_eof_in_comment)
    ∷ (1343, K.er_fparser_error_in_parameter)
    ∷ (1344, K.er_fparser_eof_in_unknown_parameter)
    ∷ (1345, K.er_view_no_explain)
    ∷ (1346, K.er_frm_unknown_type)
    ∷ (1347, K.er_wrong_object)
    ∷ (1348, K.er_nonupdateable_column)
    ∷ (1349, K.er_view_select_derived)
    ∷ (1350, K.er_view_select_clause)
    ∷ (1351, K.er_view_select_variable)
    ∷ (1352, K.er_view_select_tmptable)
    ∷ (1353, K.er_view_wrong_list)
    ∷ (1354, K.er_warn_view_merge)
    ∷ (1355, K.er_warn_view_without_key)
    ∷ (1356, K.er_view_invalid)
    ∷ (1357, K.er_sp_no_drop_sp)
    ∷ (1358, K.er_sp_goto_in_hndlr)
    ∷ (1359, K.er_trg_already_exists)
    ∷ (1360, K.er_trg_does_not_exist)
    ∷ (1361, K.er_trg_on_view_or_temp_table)
    ∷ (1362, K.er_trg_cant_change_row)
    ∷ (1363, K.er_trg_no_such_row_in_trg)
    ∷ (1364, K.er_no_default_for_field)
    ∷ (1365, K.er_division_by_zer)
    ∷ (1366, K.er_truncated_wrong_value_for_field)
    ∷ (1367, K.er_illegal_value_for_type)
    ∷ (1368, K.er_view_nonupd_check)
    ∷ (1369, K.er_view_check_failed)
    ∷ (1370, K.er_procaccess_denied_error)
    ∷ (1371, K.er_relay_log_fail)
    ∷ (1372, K.er_passwd_length)
    ∷ (1373, K.er_unknown_target_binlog)
    ∷ (1374, K.er_io_err_log_index_read)
    ∷ (1375, K.er_binlog_purge_prohibited)
    ∷ (1376, K.er_fseek_fail)
    ∷ (1377, K.er_binlog_purge_fatal_err)
    ∷ (1378, K.er_log_in_use)
    ∷ (1379, K.er_log_purge_unknown_err)
    ∷ (1380, K.er_relay_log_init)
    ∷ (1381, K.er_no_binary_logging)
    ∷ (1382, K.er_reserved_syntax)
    ∷ (1383, K.er_wsas_failed)
    ∷ (1384, K.er_diff_groups_proc)
    ∷ (1385, K.er_no_group_for_proc)
    ∷ (1386, K.er_order_with_proc)
    ∷ (1387, K.er_logging_prohibit_changing_of)
    ∷ (1388, K.er_no_file_mapping)
    ∷ (1389, K.er_wrong_magic)
    ∷ (1390, K.er_ps_many_param)
    ∷ (1391, K.er_key_part_0)
    ∷ (1392, K.er_view_checksum)
    ∷ (1393, K.er_view_multiupdate)
    ∷ (1394, K.er_view_no_insert_field_list)
    ∷ (1395, K.er_view_delete_merge_view)
    ∷ (1396, K.er_cannot_user)
    ∷ (1397, K.er_xaer_nota)
    ∷ (1398, K.er_xaer_inval)
    ∷ (1399, K.er_xaer_rmfail)
    ∷ (1400, K.er_xaer_outside)
    ∷ (1401, K.er_xaer_rmerr)
    ∷ (1402, K.er_xa_rbrollback)
    ∷ (1403, K.er_nonexisting_proc_grant)
    ∷ (1404, K.er_proc_auto_grant_fail)
    ∷ (1405, K.er_proc_auto_revoke_fail)
    ∷ (1406, K.er_data_too_long)
    ∷ (1407, K.er_sp_bad_sqlstate)
    ∷ (1408, K.er_startup)
    ∷ (1409, K.er_load_from_fixed_size_rows_to_var)
    ∷ (1410, K.er_cant_create_user_with_grant)
    ∷ (1411, K.er_wrong_value_for_type)
    ∷ (1412, K.er_table_def_changed)
    ∷ (1413, K.er_sp_dup_handler)
    ∷ (1414, K.er_sp_not_var_arg)
    ∷ (1415, K.er_sp_no_retset)
    ∷ (1416, K.er_cant_create_geometry_object)
    ∷ (1417, K.er_failed_routine_break_binlog)
    ∷ (1418, K.er_binlog_unsafe_routine)
    ∷ (1419, K.er_binlog_create_routine_need_super)
    ∷ (1420, K.er_exec_stmt_with_open_cursor)
    ∷ (1421, K.er_stmt_has_no_open_cursor)
    ∷ (1422, K.er_commit_not_allowed_in_sf_or_trg)
    ∷ (1423, K.er_no_default_for_view_field)
    ∷ (1424, K.er_sp_no_recursion)
    ∷ (1425, K.er_too_big_scale)
    ∷ (1426, K.er_too_big_precision)
    ∷ (1427, K.er_m_bigger_than_d)
    ∷ (1428, K.er_wrong_lock_of_system_table)
    ∷ (1429, K.er_connect_to_foreign_data_source)
    ∷ (1430, K.er_query_on_foreign_data_source)
    ∷ (1431, K.er_foreign_data_source_doesnt_exist)
    ∷ (1432, K.er_foreign_data_string_invalid_cant_create)
    ∷ (1433, K.er_foreign_data_string_invalid)
    ∷ (1434, K.er_cant_create_federated_table)
    ∷ (1435, K.er_trg_in_wrong_schema)
    ∷ (1436, K.er_stack_overrun_need_more)
    ∷ (1437, K.er_too_long_body)
    ∷ (1438, K.er_warn_cant_drop_default_keycache)
    ∷ (1439, K.er_too_big_displaywidth)
    ∷ (1440, K.er_xaer_dupid)
    ∷ (1441, K.er_datetime_function_overflow)
    ∷ (1442, K.er_cant_update_used_table_in_sf_or_trg)
    ∷ (1443, K.er_view_prevent_update)
    ∷ []
