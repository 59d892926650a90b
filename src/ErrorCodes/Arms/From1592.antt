-- ===== src/ErrorCodes/Arms/From1592.antt =====
-- mysql/src/errorcodes.rs: arms of `ErrorKind::from(x: u16)`, from 1592.
use opensrv.Common.{ℕ, List, [], ◌∷◌}
use opensrv.ErrorCodes.Kinds as K
use opensrv.ErrorCodes.Kinds.{ErrorKind}

abbrev pub arms_from_1592 : List (ℕ × ErrorKind)
arms_from_1592 =
    (1592, K.er_binlog_unsafe_statement)
    ∷ (1593, K.er_slave_fatal_error)
    ∷ (1594, K.er_slave_relay_log_read_failure)
    ∷ (1595, K.er_slave_relay_log_write_failure)
    ∷ (1596, K.er_slave_create_event_failure)
    ∷ (1597, K.er_slave_master_com_failure)
    ∷ (1598, K.er_binlog_logging_impossible)
    ∷ (1599, K.er_view_no_creation_ctx)
    ∷ (1600, K.er_view_invalid_creation_ctx)
    ∷ (1601, K.er_sr_invalid_creation_ctx)
    ∷ (1602, K.er_trg_corrupted_file)
    ∷ (1603, K.er_trg_no_creation_ctx)
    ∷ (1604, K.er_trg_invalid_creation_ctx)
    ∷ (1605, K.er_event_invalid_creation_ctx)
    ∷ (1606, K.er_trg_cant_open_table)
    ∷ (1607, K.er_cant_create_sroutine)
    ∷ (1608, K.er_unused_11)
    ∷ (1609, K.er_no_format_description_event_before_binlog_statement)
    ∷ (1610, K.er_slave_corrupt_event)
    ∷ (1611, K.er_load_data_invalid_column)
    ∷ (1612, K.er_log_purge_no_file)
    ∷ (1613, K.er_xa_rbtimeout)
    ∷ (1614, K.er_xa_rbdeadlock)
    ∷ (1615, K.er_need_reprepare)
    ∷ (1616, K.er_delayed_not_supported)
    ∷ (1617, K.warn_no_master_inf)
    ∷ (1618, K.warn_option_ignored)
    ∷ (1619, K.warn_plugin_delete_builtin)
    ∷ (1620, K.warn_plugin_busy)
    ∷ (1621, K.er_variable_is_readonly)
    ∷ (1622, K.er_warn_engine_transaction_rollback)
    ∷ (1623, K.er_slave_heartbeat_failure)
    ∷ (1624, K.er_slave_heartbeat_value_out_of_range)
    ∷ (1625, K.er_ndb_replication_schema_error)
    ∷ (1626, K.er_conflict_fn_parse_error)
    ∷ (1627, K.er_exceptions_write_error)
    ∷ (1628, K.er_too_long_table_comment)
    ∷ (1629, K.er_too_long_field_comment)
    ∷ (1630, K.er_func_inexistent_name_collision)
    ∷ (1631, K.er_database_name)
    ∷ (1632, K.er_table_name)
    ∷ (1633, K.er_partition_name)
    ∷ (1634, K.er_subpartition_name)
    ∷ (1635, K.er_temporary_name)
    ∷ (1636, K.er_renamed_name)
    ∷ (1637, K.er_too_many_concurrent_trxs)
    ∷ (1638, K.warn_non_ascii_separator_not_implemented)
    ∷ (1639, K.er_debug_sync_timeout)
    ∷ (1640, K.er_debug_sync_hit_limit)
    ∷ (1641, K.er_dup_signal_set)
    ∷ (1642, K.er_signal_warn)
    ∷ (1643, K.er_signal_not_found)
    ∷ (1644, K.er_signal_exception)
    ∷ (1645, K.er_resignal_without_active_handler)
    ∷ (1646, K.er_signal_bad_condition_type)
    ∷ (1647, K.warn_cond_item_truncated)
    ∷ (1648, K.er_cond_item_too_long)
    ∷ (1649, K.er_unknown_locale)
    ∷ (1650, K.er_slave_ignore_server_ids)
    ∷ (1651, K.er_query_cache_disabled)
    ∷ (1652, K.er_same_name_partition_field)
    ∷ (1653, K.er_partition_column_list_error)
    ∷ (1654, K.er_wrong_type_column_value_error)
    ∷ (1655, K.er_too_many_partition_func_fields_error)
    ∷ (1656, K.er_maxvalue_in_values_in)
    ∷ (1657, K.er_too_many_values_error)
    ∷ (1658, K.er_row_single_partition_field_error)
    ∷ (1659, K.er_field_type_not_allowed_as_partition_field)
    ∷ (1660, K.er_partition_fields_too_long)
    ∷ (1661, K.er_binlog_row_engine_and_stmt_engine)
    ∷ (1662, K.er_binlog_row_mode_and_stmt_engine)
    ∷ (1663, K.er_binlog_unsafe_and_stmt_engine)
    ∷ (1664, K.er_binlog_row_injection_and_stmt_engine)
    ∷ (1665, K.er_binlog_stmt_mode_and_row_engine)
    ∷ (1666, K.er_binlog_row_injection_and_stmt_mode)
    ∷ (1667, K.er_binlog_multiple_engines_and_self_logging_engine)
    ∷ (1668, K.er_binlog_unsafe_limit)
    ∷ (1669, K.er_binlog_unsafe_insert_delayed)
    ∷ (1670, K.er_binlog_unsafe_system_table)
    ∷ (1671, K.er_binlog_unsafe_autoinc_columns)
    ∷ (1672, K.er_binlog_unsafe_udf)
    ∷ (1673, K.er_binlog_unsafe_system_variable)
    ∷ (1674, K.er_binlog_unsafe_system_function)
    ∷ (1675, K.er_binlog_unsafe_nontrans_after_trans)
    ∷ (1676, K.er_message_and_statement)
    ∷ (1677, K.er_slave_conversion_failed)
    ∷ (1678, K.er_slave_cant_create_conversion)
    ∷ (1679, K.er_inside_transaction_prevents_switch_binlog_format)
    ∷ (1680, K.er_path_length)
    ∷ (1681, K.er_warn_deprecated_syntax_no_replacement)
    ∷ (1682, K.er_wrong_native_table_structure)
    ∷ (1683, K.er_wrong_perfschema_usage)
    ∷ (1684, K.er_warn_i_s_skipped_table)
    ∷ (1685, K.er_inside_transaction_prevents_switch_binlog_direct)
    ∷ (1686, K.er_stored_function_prevents_switch_binlog_direct)
    ∷ (1687, K.er_spatial_must_have_geom_col)
    ∷ (1688, K.er_too_long_index_comment)
    ∷ (1689, K.er_lock_aborted)
    ∷ (1690, K.er_data_out_of_range)
    ∷ (1691, K.er_wrong_spvar_type_in_limit)
    ∷ (1692, K.er_binlog_unsafe_multiple_engines_and_self_logging_engine)
    ∷ (1693, K.er_binlog_unsafe_mixed_statement)
    ∷ (1694, K.er_inside_transaction_prevents_switch_sql_log_bin)
    ∷ (1695, K.er_stored_function_prevents_switch_sql_log_bin)
    ∷ (1696, K.er_failed_read_from_par_file)
    ∷ (1697, K.er_values_is_not_int_type_error)
    ∷ (1698, K.er_access_denied_no_password_error)
    ∷ (1699, K.er_set_password_auth_plugin)
    ∷ (1700, K.er_grant_plugin_user_exists)
    ∷ (1701, K.er_truncate_illegal_fk)
    ∷ (1702, K.er_plugin_is_permanent)
    ∷ (1703, K.er_slave_heartbeat_value_out_of_range_min)
    ∷ (1704, K.er_slave_heartbeat_value_out_of_range_max)
    ∷ (1705, K.er_stmt_cache_full)
    ∷ (1706, K.er_multi_update_key_conflict)
    ∷ (1707, K.er_table_needs_rebuild)
    ∷ (1708, K.warn_option_below_limit)
    ∷ (1709, K.er_index_column_too_long)
    ∷ (1710, K.er_error_in_trigger_body)
    ∷ (1711, K.er_error_in_unknown_trigger_body)
    ∷ (1712, K.er_index_corrupt)
    ∷ (1713, K.er_undo_record_too_big)
    ∷ (1714, K.er_binlog_unsafe_insert_ignore_select)
    ∷ (1715, K.er_binlog_unsafe_insert_select_update)
    ∷ (1716, K.er_binlog_unsafe_replace_select)
    ∷ (1717, K.er_binlog_unsafe_create_ignore_select)
    ∷ (1718, K.er_binlog_unsafe_create_replace_select)
    ∷ (1719, K.er_binlog_unsafe_update_ignore)
    ∷ (1720, K.er_plugin_no_uninstall)
    ∷ (1721, K.er_plugin_no_install)
    ∷ (1722, K.er_binlog_unsafe_write_autoinc_select)
    ∷ (1723, K.er_binlog_unsafe_create_select_autoinc)
    ∷ (1724, K.er_binlog_unsafe_insert_two_keys)
    ∷ (1725, K.er_table_in_fk_check)
    ∷ (1726, K.er_unsupported_engine)
    ∷ (1727, K.er_binlog_unsafe_autoinc_not_first)
    ∷ (1728, K.er_cannot_load_from_table_v2)
    ∷ (1729, K.er_master_delay_value_out_of_range)
    ∷ (1730, K.er_only_fd_and_rbr_events_allowed_in_binlog_statement)
    ∷ (1731, K.er_partition_exchange_different_option)
    ∷ (1732, K.er_partition_exchange_part_table)
    ∷ (1733, K.er_partition_exchange_temp_table)
    ∷ (1734, K.er_partition_instead_of_subpartition)
    ∷ (1735, K.er_unknown_partition)
    ∷ (1736, K.er_tables_different_metadata)
    ∷ (1737, K.er_row_does_not_match_partition)
    ∷ (1738, K.er_binlog_cache_size_greater_than_max)
    ∷ (1739, K.er_warn_index_not_applicable)
    ∷ []
