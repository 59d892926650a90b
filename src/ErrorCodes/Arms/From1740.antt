-- ===== src/ErrorCodes/Arms/From1740.antt =====
-- mysql/src/errorcodes.rs: arms of `ErrorKind::from(x: u16)`, from 1740.
use opensrv.Common.{ℕ, List, [], ◌∷◌}
use opensrv.ErrorCodes.Kinds as K
use opensrv.ErrorCodes.Kinds.{ErrorKind}

abbrev pub arms_from_1740 : List (ℕ × ErrorKind)
arms_from_1740 =
    (1740, K.er_partition_exchange_foreign_key)
    ∷ (1741, K.er_no_such_key_value)
    ∷ (1742, K.er_rpl_info_data_too_long)
    ∷ (1743, K.er_network_read_event_checksum_failure)
    ∷ (1744, K.er_binlog_read_event_checksum_failure)
    ∷ (1745, K.er_binlog_stmt_cache_size_greater_than_max)
    ∷ (1746, K.er_cant_update_table_in_create_table_select)
    ∷ (1747, K.er_partition_clause_on_nonpartitioned)
    ∷ (1748, K.er_row_does_not_match_given_partition_set)
    ∷ (1749, K.er_no_such_partition_unused)
    ∷ (1750, K.er_change_rpl_info_repository_failure)
    ∷ (1751, K.er_warning_not_complete_rollback_with_created_temp_table)
    ∷ (1752, K.er_warning_not_complete_rollback_with_dropped_temp_table)
    ∷ (1753, K.er_mts_feature_is_not_supported)
    ∷ (1754, K.er_mts_updated_dbs_greater_max)
    ∷ (1755, K.er_mts_cant_parallel)
    ∷ (1756, K.er_mts_inconsistent_data)
    ∷ (1757, K.er_fulltext_not_supported_with_partitioning)
    ∷ (1758, K.er_da_invalid_condition_number)
    ∷ (1759, K.er_insecure_plain_text)
    ∷ (1760, K.er_insecure_change_master)
    ∷ (1761, K.er_foreign_duplicate_key_with_child_info)
    ∷ (1762, K.er_foreign_duplicate_key_without_child_info)
    ∷ (1763, K.er_sqlthread_with_secure_slave)
    ∷ (1764, K.er_table_has_no_ft)
    ∷ (1765, K.er_variable_not_settable_in_sf_or_trigger)
    ∷ (1766, K.er_variable_not_settable_in_transaction)
    ∷ (1767, K.er_gtid_next_is_not_in_gtid_next_list)
    ∷ (1768, K.er_cant_change_gtid_next_in_transaction_when_gtid_next_list_is_null)
    ∷ (1769, K.er_set_statement_cannot_invoke_function)
    ∷ (1770, K.er_gtid_next_cant_be_automatic_if_gtid_next_list_is_non_null)
    ∷ (1771, K.er_skipping_logged_transaction)
    ∷ (1772, K.er_malformed_gtid_set_specification)
    ∷ (1773, K.er_malformed_gtid_set_encoding)
    ∷ (1774, K.er_malformed_gtid_specification)
    ∷ (1775, K.er_gno_exhausted)
    ∷ (1776, K.er_bad_slave_auto_position)
    ∷ (1777, K.er_auto_position_requires_gtid_mode_on)
    ∷ (1778, K.er_cant_do_implicit_commit_in_trx_when_gtid_next_is_set)
    ∷ (1779, K.er_gtid_mode_2_or_3_requires_disable_gtid_unsafe_statements_on)
    ∷ (1780, K.er_gtid_mode_requires_binlog)
    ∷ (1781, K.er_cant_set_gtid_next_to_gtid_when_gtid_mode_is_off)
    ∷ (1782, K.er_cant_set_gtid_next_to_anonymous_when_gtid_mode_is_on)
    ∷ (1783, K.er_cant_set_gtid_next_list_to_non_null_when_gtid_mode_is_off)
    ∷ (1784, K.er_found_gtid_event_when_gtid_mode_is_off)
    ∷ (1785, K.er_gtid_unsafe_non_transactional_table)
    ∷ (1786, K.er_gtid_unsafe_create_select)
    ∷ (1787, K.er_gtid_unsafe_create_drop_temporary_table_in_transaction)
    ∷ (1788, K.er_gtid_mode_can_only_change_one_step_at_a_time)
    ∷ (1789, K.er_master_has_purged_required_gtids)
    ∷ (1790, K.er_cant_set_gtid_next_when_owning_gtid)
    ∷ (1791, K.er_unknown_explain_format)
    ∷ (1792, K.er_cant_execute_in_read_only_transaction)
    ∷ (1793, K.er_too_long_table_partition_comment)
    ∷ (1794, K.er_slave_configuration)
    ∷ (1795, K.er_innodb_ft_limit)
    ∷ (1796, K.er_innodb_no_ft_temp_table)
    ∷ (1797, K.er_innodb_ft_wrong_docid_column)
    ∷ (1798, K.er_innodb_ft_wrong_docid_index)
    ∷ (1799, K.er_innodb_online_log_too_big)
    ∷ (1800, K.er_unknown_alter_algorithm)
    ∷ (1801, K.er_unknown_alter_lock)
    ∷ (1802, K.er_mts_change_master_cant_run_with_gaps)
    ∷ (1803, K.er_mts_recovery_failure)
    ∷ (1804, K.er_mts_reset_workers)
    ∷ (1805, K.er_col_count_doesnt_match_corrupted_v2)
    ∷ (1806, K.er_slave_silent_retry_transaction)
    ∷ (1807, K.er_discard_fk_checks_running)
    ∷ (1808, K.er_table_schema_mismatch)
    ∷ (1809, K.er_table_in_system_tablespace)
    ∷ (1810, K.er_io_read_error)
    ∷ (1811, K.er_io_write_error)
    ∷ (1812, K.er_tablespace_missing)
    ∷ (1813, K.er_tablespace_exists)
    ∷ (1814, K.er_tablespace_discarded)
    ∷ (1815, K.er_internal_error)
    ∷ (1816, K.er_innodb_import_error)
    ∷ (1817, K.er_innodb_index_corrupt)
    ∷ (1818, K.er_invalid_year_column_length)
    ∷ (1819, K.er_not_valid_password)
    ∷ (1820, K.er_must_change_password)
    ∷ (1821, K.er_fk_no_index_child)
    ∷ (1822, K.er_fk_no_index_parent)
    ∷ (1823, K.er_fk_fail_add_system)
    ∷ (1824, K.er_fk_cannot_open_parent)
    ∷ (1825, K.er_fk_incorrect_option)
    ∷ (1826, K.er_fk_dup_name)
    ∷ (1827, K.er_password_format)
    ∷ (1828, K.er_fk_column_cannot_drop)
    ∷ (1829, K.er_fk_column_cannot_drop_child)
    ∷ (1830, K.er_fk_column_not_null)
    ∷ (1831, K.er_dup_index)
    ∷ (1832, K.er_fk_column_cannot_change)
    ∷ (1833, K.er_fk_column_cannot_change_child)
    ∷ (1834, K.er_fk_cannot_delete_parent)
    ∷ (1835, K.er_malformed_packet)
    ∷ (1836, K.er_read_only_mode)
    ∷ (1837, K.er_gtid_next_type_undefined_group)
    ∷ (1838, K.er_variable_not_settable_in_sp)
    ∷ (1839, K.er_cant_set_gtid_purged_when_gtid_mode_is_off)
    ∷ (1840, K.er_cant_set_gtid_purged_when_gtid_executed_is_not_empty)
    ∷ (1841, K.er_cant_set_gtid_purged_when_owned_gtids_is_not_empty)
    ∷ (1842, K.er_gtid_purged_was_changed)
    ∷ (1843, K.er_gtid_executed_was_changed)
    ∷ (1844, K.er_binlog_stmt_mode_and_no_repl_tables)
    ∷ (1845, K.er_alter_operation_not_supported)
    ∷ (1846, K.er_alter_operation_not_supported_reason)
    ∷ (1847, K.er_alter_operation_not_supported_reason_copy)
    ∷ (1848, K.er_alter_operation_not_supported_reason_partition)
    ∷ (1849, K.er_alter_operation_not_supported_reason_fk_rename)
    ∷ (1850, K.er_alter_operation_not_supported_reason_column_type)
    ∷ (1851, K.er_alter_operation_not_supported_reason_fk_check)
    ∷ (1852, K.er_alter_operation_not_supported_reason_ignore)
    ∷ (1853, K.er_alter_operation_not_supported_reason_nopk)
    ∷ (1854, K.er_alter_operation_not_supported_reason_autoinc)
    ∷ (1855, K.er_alter_operation_not_supported_reason_hidden_fts)
    ∷ (1856, K.er_alter_operation_not_supported_reason_change_fts)
    ∷ (1857, K.er_alter_operation_not_supported_reason_fts)
    ∷ (1858, K.er_sql_slave_skip_counter_not_settable_in_gtid_mode)
    ∷ (1859, K.er_dup_unknown_in_index)
    ∷ (1860, K.er_ident_causes_too_long_path)
    ∷ (1861, K.er_alter_operation_not_supported_reason_not_null)
    ∷ (1862, K.er_must_change_password_login)
    ∷ (1863, K.er_row_in_wrong_partition)
    ∷ (1864, K.er_mts_event_bigger_pending_jobs_size_max)
    ∷ (1865, K.er_innodb_no_ft_uses_parser)
    ∷ (1866, K.er_binlog_logical_corruption)
    ∷ (1867, K.er_warn_purge_log_in_use)
    ∷ (1868, K.er_warn_purge_log_is_active)
    ∷ (1869, K.er_auto_increment_conflict)
    ∷ (1870, K.warn_on_blockhole_in_rbr)
    ∷ (1871, K.er_slave_mi_init_repository)
    ∷ (1872, K.er_slave_rli_init_repository)
    ∷ (1873, K.er_access_denied_change_user_error)
    ∷ (1874, K.er_innodb_read_only)
    ∷ (1875, K.er_stop_slave_sql_thread_timeout)
    ∷ (1876, K.er_stop_slave_io_thread_timeout)
    ∷ (1877, K.er_table_corrupt)
    ∷ (1878, K.er_temp_file_write_failure)
    ∷ (1879, K.er_innodb_ft_aux_not_hex_id)
    ∷ (1880, K.er_old_temporals_upgraded)
    ∷ (1881, K.er_innodb_forced_recovery)
    ∷ (1882, K.er_aes_invalid_iv)
    ∷ (1883, K.er_plugin_cannot_be_uninstalled)
    ∷ (1884, K.er_gtid_unsafe_binlog_splittable_statement_and_gtid_group)
    ∷ (1885, K.er_slave_has_more_gtids_than_master)
    ∷ []
