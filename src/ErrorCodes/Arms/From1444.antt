-- ===== src/ErrorCodes/Arms/From1444.antt =====
-- mysql/src/errorcodes.rs: arms of `ErrorKind::from(x: u16)`, from 1444.
use opensrv.Common.{ℕ, List, [], ◌∷◌}
use opensrv.ErrorCodes.Kinds as K
use opensrv.ErrorCodes.Kinds.{ErrorKind}

abbrev pub arms_from_1444 : List (ℕ × ErrorKind)
arms_from_1444 =
    (1444, K.er_ps_no_recursion)
    ∷ (1445, K.er_sp_cant_set_autocommit)
    ∷ (1446, K.er_malformed_definer)
    ∷ (1447, K.er_view_frm_no_user)
    ∷ (1448, K.er_view_other_user)
    ∷ (1449, K.er_no_such_user)
    ∷ (1450, K.er_forbid_schema_change)
    ∷ (1451, K.er_row_is_referenced_2)
    ∷ (1452, K.er_no_referenced_row_2)
    ∷ (1453, K.er_sp_bad_var_shadow)
    ∷ (1454, K.er_trg_no_definer)
    ∷ (1455, K.er_old_file_format)
    ∷ (1456, K.er_sp_recursion_limit)
    ∷ (1457, K.er_sp_proc_table_corrupt)
    ∷ (1458, K.er_sp_wrong_name)
    ∷ (1459, K.er_table_needs_upgrade)
    ∷ (1460, K.er_sp_no_aggregate)
    ∷ (1461, K.er_max_prepared_stmt_count_reached)
    ∷ (1462, K.er_view_recursive)
    ∷ (1463, K.er_non_grouping_field_used)
    ∷ (1464, K.er_table_cant_handle_spkeys)
    ∷ (1465, K.er_no_triggers_on_system_schema)
    ∷ (1466, K.er_removed_spaces)
    ∷ (1467, K.er_autoinc_read_failed)
    ∷ (1468, K.er_username)
    ∷ (1469, K.er_hostname)
    ∷ (1470, K.er_wrong_string_length)
    ∷ (1471, K.er_non_insertable_table)
    ∷ (1472, K.er_admin_wrong_mrg_table)
    ∷ (1473, K.er_too_high_level_of_nesting_for_select)
    ∷ (1474, K.er_name_becomes_empty)
    ∷ (1475, K.er_ambiguous_field_term)
    ∷ (1476, K.er_foreign_server_exists)
    ∷ (1477, K.er_foreign_server_doesnt_exist)
    ∷ (1478, K.er_illegal_ha_create_option)
    ∷ (1479, K.er_partition_requires_values_error)
    ∷ (1480, K.er_partition_wrong_values_error)
    ∷ (1481, K.er_partition_maxvalue_error)
    ∷ (1482, K.er_partition_subpartition_error)
    ∷ (1483, K.er_partition_subpart_mix_error)
    ∷ (1484, K.er_partition_wrong_no_part_error)
    ∷ (1485, K.er_partition_wrong_no_subpart_error)
    ∷ (1486, K.er_wrong_expr_in_partition_func_error)
    ∷ (1487, K.er_no_const_expr_in_range_or_list_error)
    ∷ (1488, K.er_field_not_found_part_error)
    ∷ (1489, K.er_list_of_fields_only_in_hash_error)
    ∷ (1490, K.er_inconsistent_partition_info_error)
    ∷ (1491, K.er_partition_func_not_allowed_error)
    ∷ (1492, K.er_partitions_must_be_defined_error)
    ∷ (1493, K.er_range_not_increasing_error)
    ∷ (1494, K.er_inconsistent_type_of_functions_error)
    ∷ (1495, K.er_multiple_def_const_in_list_part_error)
    ∷ (1496, K.er_partition_entry_error)
    ∷ (1497, K.er_mix_handler_error)
    ∷ (1498, K.er_partition_not_defined_error)
    ∷ (1499, K.er_too_many_partitions_error)
    ∷ (1500, K.er_subpartition_error)
    ∷ (1501, K.er_cant_create_handler_file)
    ∷ (1502, K.er_blob_field_in_part_func_error)
    ∷ (1503, K.er_unique_key_need_all_fields_in_pf)
    ∷ (1504, K.er_no_parts_error)
    ∷ (1505, K.er_partition_mgmt_on_nonpartitioned)
    ∷ (1506, K.er_foreign_key_on_partitioned)
    ∷ (1507, K.er_drop_partition_non_existent)
    ∷ (1508, K.er_drop_last_partition)
    ∷ (1509, K.er_coalesce_only_on_hash_partition)
    ∷ (1510, K.er_reorg_hash_only_on_same_n)
    ∷ (1511, K.er_reorg_no_param_error)
    ∷ (1512, K.er_only_on_range_list_partition)
    ∷ (1513, K.er_add_partition_subpart_error)
    ∷ (1514, K.er_add_partition_no_new_partition)
    ∷ (1515, K.er_coalesce_partition_no_partition)
    ∷ (1516, K.er_reorg_partition_not_exist)
    ∷ (1517, K.er_same_name_partition)
    ∷ (1518, K.er_no_binlog_error)
    ∷ (1519, K.er_consecutive_reorg_partitions)
    ∷ (1520, K.er_reorg_outside_range)
    ∷ (1521, K.er_partition_function_failure)
    ∷ (1522, K.er_part_state_error)
    ∷ (1523, K.er_limited_part_range)
    ∷ (1524, K.er_plugin_is_not_loaded)
    ∷ (1525, K.er_wrong_value)
    ∷ (1526, K.er_no_partition_for_given_value)
    ∷ (1527, K.er_filegroup_option_only_once)
    ∷ (1528, K.er_create_filegroup_failed)
    ∷ (1529, K.er_drop_filegroup_failed)
    ∷ (1530, K.er_tablespace_auto_extend_error)
    ∷ (1531, K.er_wrong_size_number)
    ∷ (1532, K.er_size_overflow_error)
    ∷ (1533, K.er_alter_filegroup_failed)
    ∷ (1534, K.er_binlog_row_logging_failed)
    ∷ (1535, K.er_binlog_row_wrong_table_def)
    ∷ (1536, K.er_binlog_row_rbr_to_sbr)
    ∷ (1537, K.er_event_already_exists)
    ∷ (1538, K.er_event_store_failed)
    ∷ (1539, K.er_event_does_not_exist)
    ∷ (1540, K.er_event_cant_alter)
    ∷ (1541, K.er_event_drop_failed)
    ∷ (1542, K.er_event_interval_not_positive_or_too_big)
    ∷ (1543, K.er_event_ends_before_starts)
    ∷ (1544, K.er_event_exec_time_in_the_past)
    ∷ (1545, K.er_event_open_table_failed)
    ∷ (1546, K.er_event_neither_m_expr_nor_m_at)
    ∷ (1547, K.er_col_count_doesnt_match_corrupted)
    ∷ (1548, K.er_cannot_load_from_table)
    ∷ (1549, K.er_event_cannot_delete)
    ∷ (1550, K.er_event_compile_error)
    ∷ (1551, K.er_event_same_name)
    ∷ (1552, K.er_event_data_too_long)
    ∷ (1553, K.er_drop_index_fk)
    ∷ (1554, K.er_warn_deprecated_syntax_with_ver)
    ∷ (1555, K.er_cant_write_lock_log_table)
    ∷ (1556, K.er_cant_lock_log_table)
    ∷ (1557, K.er_foreign_duplicate_key)
    ∷ (1558, K.er_col_count_doesnt_match_please_update)
    ∷ (1559, K.er_temp_table_prevents_switch_out_of_rbr)
    ∷ (1560, K.er_stored_function_prevents_switch_binlog_format)
    ∷ (1561, K.er_ndb_cant_switch_binlog_format)
    ∷ (1562, K.er_partition_no_temporary)
    ∷ (1563, K.er_partition_const_domain_error)
    ∷ (1564, K.er_partition_function_is_not_allowed)
    ∷ (1565, K.er_ddl_log_error)
    ∷ (1566, K.er_null_in_values_less_than)
    ∷ (1567, K.er_wrong_partition_name)
    ∷ (1568, K.er_cant_change_tx_isolation)
    ∷ (1569, K.er_dup_entry_autoincrement_case)
    ∷ (1570, K.er_event_modify_queue_error)
    ∷ (1571, K.er_event_set_var_error)
    ∷ (1572, K.er_partition_merge_error)
    ∷ (1573, K.er_cant_activate_log)
    ∷ (1574, K.er_rbr_not_available)
    ∷ (1575, K.er_base64_decode_error)
    ∷ (1576, K.er_event_recursion_forbidden)
    ∷ (1577, K.er_events_db_error)
    ∷ (1578, K.er_only_integers_allowed)
    ∷ (1579, K.er_unsuported_log_engine)
    ∷ (1580, K.er_bad_log_statement)
    ∷ (1581, K.er_cant_rename_log_table)
    ∷ (1582, K.er_wrong_paramcount_to_native_fct)
    ∷ (1583, K.er_wrong_parameters_to_native_fct)
    ∷ (1584, K.er_wrong_parameters_to_stored_fct)
    ∷ (1585, K.er_native_fct_name_collision)
    ∷ (1586, K.er_dup_entry_with_key_name)
    ∷ (1587, K.er_binlog_purge_emfile)
    ∷ (1588, K.er_event_cannot_create_in_the_past)
    ∷ (1589, K.er_event_cannot_alter_in_the_past)
    ∷ (1590, K.er_slave_incident)
    ∷ (1591, K.er_no_partition_for_given_value_silent)
    ∷ []
