-- ===== src/ErrorCodes/Codes.antt =====
-- mysql/src/errorcodes.rs: the number of each error code, the discriminants of `ErrorKind`.
use opensrv.Common.{ℕ}
use opensrv.ErrorCodes.Kinds as K
use opensrv.ErrorCodes.Kinds.{ErrorKind}

unfoldable pub code : ErrorKind → ℕ
code K.er_hashchk = 1000
code K.er_nisamchk = 1001
code K.er_no = 1002
code K.er_yes = 1003
code K.er_cant_create_file = 1004
code K.er_cant_create_table = 1005
code K.er_cant_create_db = 1006
code K.er_db_create_exists = 1007
code K.er_db_drop_exists = 1008
code K.er_db_drop_delete = 1009
code K.er_db_drop_rmdir = 1010
code K.er_cant_delete_file = 1011
code K.er_cant_find_system_rec = 1012
code K.er_cant_get_stat = 1013
code K.er_cant_get_wd = 1014
code K.er_cant_lock = 1015
code K.er_cant_open_file = 1016
code K.er_file_not_found = 1017
code K.er_cant_read_dir = 1018
code K.er_cant_set_wd = 1019
code K.er_checkread = 1020
code K.er_disk_full = 1021
code K.er_dup_key = 1022
code K.er_error_on_close = 1023
code K.er_error_on_read = 1024
code K.er_error_on_rename = 1025
code K.er_error_on_write = 1026
code K.er_file_used = 1027
code K.er_filsort_abort = 1028
code K.er_form_not_found = 1029
code K.er_get_errn = 1030
code K.er_illegal_ha = 1031
code K.er_key_not_found = 1032
code K.er_not_form_file = 1033
code K.er_not_keyfile = 1034
code K.er_old_keyfile = 1035
code K.er_open_as_readonly = 1036
code K.er_outofmemory = 1037
code K.er_out_of_sortmemory = 1038
code K.er_unexpected_eof = 1039
code K.er_con_count_error = 1040
code K.er_out_of_resources = 1041
code K.er_bad_host_error = 1042
code K.er_handshake_error = 1043
code K.er_dbaccess_denied_error = 1044
code K.er_access_denied_error = 1045
code K.er_no_db_error = 1046
code K.er_unknown_com_error = 1047
code K.er_bad_null_error = 1048
code K.er_bad_db_error = 1049
code K.er_table_exists_error = 1050
code K.er_bad_table_error = 1051
code K.er_non_uniq_error = 1052
code K.er_server_shutdown = 1053
code K.er_bad_field_error = 1054
code K.er_wrong_field_with_group = 1055
code K.er_wrong_group_field = 1056
code K.er_wrong_sum_select = 1057
code K.er_wrong_value_count = 1058
code K.er_too_long_ident = 1059
code K.er_dup_fieldname = 1060
code K.er_dup_keyname = 1061
code K.er_dup_entry = 1062
code K.er_wrong_field_spec = 1063
code K.er_parse_error = 1064
code K.er_empty_query = 1065
code K.er_nonuniq_table = 1066
code K.er_invalid_default = 1067
code K.er_multiple_pri_key = 1068
code K.er_too_many_keys = 1069
code K.er_too_many_key_parts = 1070
code K.er_too_long_key = 1071
code K.er_key_column_does_not_exits = 1072
code K.er_blob_used_as_key = 1073
code K.er_too_big_fieldlength = 1074
code K.er_wrong_auto_key = 1075
code K.er_ready = 1076
code K.er_normal_shutdown = 1077
code K.er_got_signal = 1078
code K.er_shutdown_complete = 1079
code K.er_forcing_close = 1080
code K.er_ipsock_error = 1081
code K.er_no_such_index = 1082
code K.er_wrong_field_terminators = 1083
code K.er_blobs_and_no_terminated = 1084
code K.er_textfile_not_readable = 1085
code K.er_file_exists_error = 1086
code K.er_load_inf = 1087
code K.er_alter_inf = 1088
code K.er_wrong_sub_key = 1089
code K.er_cant_remove_all_fields = 1090
code K.er_cant_drop_field_or_key = 1091
code K.er_insert_inf = 1092
code K.er_update_table_used = 1093
code K.er_no_such_thread = 1094
code K.er_kill_denied_error = 1095
code K.er_no_tables_used = 1096
code K.er_too_big_set = 1097
code K.er_no_unique_logfile = 1098
code K.er_table_not_locked_for_write = 1099
code K.er_table_not_locked = 1100
code K.er_blob_cant_have_default = 1101
code K.er_wrong_db_name = 1102
code K.er_wrong_table_name = 1103
code K.er_too_big_select = 1104
code K.er_unknown_error = 1105
code K.er_unknown_procedure = 1106
code K.er_wrong_paramcount_to_procedure = 1107
code K.er_wrong_parameters_to_procedure = 1108
code K.er_unknown_table = 1109
code K.er_field_specified_twice = 1110
code K.er_invalid_group_func_use = 1111
code K.er_unsupported_extension = 1112
code K.er_table_must_have_columns = 1113
code K.er_record_file_full = 1114
code K.er_unknown_character_set = 1115
code K.er_too_many_tables = 1116
code K.er_too_many_fields = 1117
code K.er_too_big_rowsize = 1118
code K.er_stack_overrun = 1119
code K.er_wrong_outer_join = 1120
code K.er_null_column_in_index = 1121
code K.er_cant_find_udf = 1122
code K.er_cant_initialize_udf = 1123
code K.er_udf_no_paths = 1124
code K.er_udf_exists = 1125
code K.er_cant_open_library = 1126
code K.er_cant_find_dl_entry = 1127
code K.er_function_not_defined = 1128
code K.er_host_is_blocked = 1129
code K.er_host_not_privileged = 1130
code K.er_password_anonymous_user = 1131
code K.er_password_not_allowed = 1132
code K.er_password_no_match = 1133
code K.er_update_inf = 1134
code K.er_cant_create_thread = 1135
code K.er_wrong_value_count_on_row = 1136
code K.er_cant_reopen_table = 1137
code K.er_invalid_use_of_null = 1138
code K.er_regexp_error = 1139
code K.er_mix_of_group_func_and_fields = 1140
code K.er_nonexisting_grant = 1141
code K.er_tableaccess_denied_error = 1142
code K.er_columnaccess_denied_error = 1143
code K.er_illegal_grant_for_table = 1144
code K.er_grant_wrong_host_or_user = 1145
code K.er_no_such_table = 1146
code K.er_nonexisting_table_grant = 1147
code K.er_not_allowed_command = 1148
code K.er_syntax_error = 1149
code K.er_delayed_cant_change_lock = 1150
code K.er_too_many_delayed_threads = 1151
code K.er_aborting_connection = 1152
code K.er_net_packet_too_large = 1153
code K.er_net_read_error_from_pipe = 1154
code K.er_net_fcntl_error = 1155
code K.er_net_packets_out_of_order = 1156
code K.er_net_uncompress_error = 1157
code K.er_net_read_error = 1158
code K.er_net_read_interrupted = 1159
code K.er_net_error_on_write = 1160
code K.er_net_write_interrupted = 1161
code K.er_too_long_string = 1162
code K.er_table_cant_handle_blob = 1163
code K.er_table_cant_handle_auto_increment = 1164
code K.er_delayed_insert_table_locked = 1165
code K.er_wrong_column_name = 1166
code K.er_wrong_key_column = 1167
code K.er_wrong_mrg_table = 1168
code K.er_dup_unique = 1169
code K.er_blob_key_without_length = 1170
code K.er_primary_cant_have_null = 1171
code K.er_too_many_rows = 1172
code K.er_requires_primary_key = 1173
code K.er_no_raid_compiled = 1174
code K.er_update_without_key_in_safe_mode = 1175
code K.er_key_does_not_exits = 1176
code K.er_check_no_such_table = 1177
code K.er_check_not_implemented = 1178
code K.er_cant_do_this_during_an_transaction = 1179
code K.er_error_during_commit = 1180
code K.er_error_during_rollback = 1181
code K.er_error_during_flush_logs = 1182
code K.er_error_during_checkpoint = 1183
code K.er_new_aborting_connection = 1184
code K.er_dump_not_implemented = 1185
code K.er_flush_master_binlog_closed = 1186
code K.er_index_rebuild = 1187
code K.er_master = 1188
code K.er_master_net_read = 1189
code K.er_master_net_write = 1190
code K.er_ft_matching_key_not_found = 1191
code K.er_lock_or_active_transaction = 1192
code K.er_unknown_system_variable = 1193
code K.er_crashed_on_usage = 1194
code K.er_crashed_on_repair = 1195
code K.er_warning_not_complete_rollback = 1196
code K.er_trans_cache_full = 1197
code K.er_slave_must_stop = 1198
code K.er_slave_not_running = 1199
code K.er_bad_slave = 1200
code K.er_master_inf = 1201
code K.er_slave_thread = 1202
code K.er_too_many_user_connections = 1203
code K.er_set_constants_only = 1204
code K.er_lock_wait_timeout = 1205
code K.er_lock_table_full = 1206
code K.er_read_only_transaction = 1207
code K.er_drop_db_with_read_lock = 1208
code K.er_create_db_with_read_lock = 1209
code K.er_wrong_arguments = 1210
code K.er_no_permission_to_create_user = 1211
code K.er_union_tables_in_different_dir = 1212
code K.er_lock_deadlock = 1213
code K.er_table_cant_handle_ft = 1214
code K.er_cannot_add_foreign = 1215
code K.er_no_referenced_row = 1216
code K.er_row_is_referenced = 1217
code K.er_connect_to_master = 1218
code K.er_query_on_master = 1219
code K.er_error_when_executing_command = 1220
code K.er_wrong_usage = 1221
code K.er_wrong_number_of_columns_in_select = 1222
code K.er_cant_update_with_readlock = 1223
code K.er_mixing_not_allowed = 1224
code K.er_dup_argument = 1225
code K.er_user_limit_reached = 1226
code K.er_specific_access_denied_error = 1227
code K.er_local_variable = 1228
code K.er_global_variable = 1229
code K.er_no_default = 1230
code K.er_wrong_value_for_var = 1231
code K.er_wrong_type_for_var = 1232
code K.er_var_cant_be_read = 1233
code K.er_cant_use_option_here = 1234
code K.er_not_supported_yet = 1235
code K.er_master_fatal_error_reading_binlog = 1236
code K.er_slave_ignored_table = 1237
code K.er_incorrect_global_local_var = 1238
code K.er_wrong_fk_def = 1239
code K.er_key_ref_do_not_match_table_ref = 1240
code K.er_operand_columns = 1241
code K.er_subquery_no_1_row = 1242
code K.er_unknown_stmt_handler = 1243
code K.er_corrupt_help_db = 1244
code K.er_cyclic_reference = 1245
code K.er_auto_convert = 1246
code K.er_illegal_reference = 1247
code K.er_derived_must_have_alias = 1248
code K.er_select_reduced = 1249
code K.er_tablename_not_allowed_here = 1250
code K.er_not_supported_auth_mode = 1251
code K.er_spatial_cant_have_null = 1252
code K.er_collation_charset_mismatch = 1253
code K.er_slave_was_running = 1254
code K.er_slave_was_not_running = 1255
code K.er_too_big_for_uncompress = 1256
code K.er_zlib_z_mem_error = 1257
code K.er_zlib_z_buf_error = 1258
code K.er_zlib_z_data_error = 1259
code K.er_cut_value_group_concat = 1260
code K.er_warn_too_few_records = 1261
code K.er_warn_too_many_records = 1262
code K.er_warn_null_to_notnull = 1263
code K.er_warn_data_out_of_range = 1264
code K.warn_data_truncated = 1265
code K.er_warn_using_other_handler = 1266
code K.er_cant_aggregate_2collations = 1267
code K.er_drop_user = 1268
code K.er_revoke_grants = 1269
code K.er_cant_aggregate_3collations = 1270
code K.er_cant_aggregate_ncollations = 1271
code K.er_variable_is_not_struct = 1272
code K.er_unknown_collation = 1273
code K.er_slave_ignored_ssl_params = 1274
code K.er_server_is_in_secure_auth_mode = 1275
code K.er_warn_field_resolved = 1276
code K.er_bad_slave_until_cond = 1277
code K.er_missing_skip_slave = 1278
code K.er_until_cond_ignored = 1279
code K.er_wrong_name_for_index = 1280
code K.er_wrong_name_for_catalog = 1281
code K.er_warn_qc_resize = 1282
code K.er_bad_ft_column = 1283
code K.er_unknown_key_cache = 1284
code K.er_warn_hostname_wont_work = 1285
code K.er_unknown_storage_engine = 1286
code K.er_warn_deprecated_syntax = 1287
code K.er_non_updatable_table = 1288
code K.er_feature_disabled = 1289
code K.er_option_prevents_statement = 1290
code K.er_duplicated_value_in_type = 1291
code K.er_truncated_wrong_value = 1292
code K.er_too_much_auto_timestamp_cols = 1293
code K.er_invalid_on_update = 1294
code K.er_unsupported_ps = 1295
code K.er_get_errmsg = 1296
code K.er_get_temporary_errmsg = 1297
code K.er_unknown_time_zone = 1298
code K.er_warn_invalid_timestamp = 1299
code K.er_invalid_character_string = 1300
code K.er_warn_allowed_packet_overflowed = 1301
code K.er_conflicting_declarations = 1302
code K.er_sp_no_recursive_create = 1303
code K.er_sp_already_exists = 1304
code K.er_sp_does_not_exist = 1305
code K.er_sp_drop_failed = 1306
code K.er_sp_store_failed = 1307
code K.er_sp_lilabel_mismatch = 1308
code K.er_sp_label_redefine = 1309
code K.er_sp_label_mismatch = 1310
code K.er_sp_uninit_var = 1311
code K.er_sp_badselect = 1312
code K.er_sp_badreturn = 1313
code K.er_sp_badstatement = 1314
code K.er_update_log_deprecated_ignored = 1315
code K.er_update_log_deprecated_translated = 1316
code K.er_query_interrupted = 1317
code K.er_sp_wrong_no_of_args = 1318
code K.er_sp_cond_mismatch = 1319
code K.er_sp_noreturn = 1320
code K.er_sp_noreturnend = 1321
code K.er_sp_bad_cursor_query = 1322
code K.er_sp_bad_cursor_select = 1323
code K.er_sp_cursor_mismatch = 1324
code K.er_sp_cursor_already_open = 1325
code K.er_sp_cursor_not_open = 1326
code K.er_sp_undeclared_var = 1327
code K.er_sp_wrong_no_of_fetch_args = 1328
code K.er_sp_fetch_no_data = 1329
code K.er_sp_dup_param = 1330
code K.er_sp_dup_var = 1331
code K.er_sp_dup_cond = 1332
code K.er_sp_dup_curs = 1333
code K.er_sp_cant_alter = 1334
code K.er_sp_subselect_nyi = 1335
code K.er_stmt_not_allowed_in_sf_or_trg = 1336
code K.er_sp_varcond_after_curshndlr = 1337
code K.er_sp_cursor_after_handler = 1338
code K.er_sp_case_not_found = 1339
code K.er_fparser_too_big_file = 1340
code K.er_fparser_bad_header = 1341
code K.er_fparser_eof_in_comment = 1342
code K.er_fparser_error_in_parameter = 1343
code K.er_fparser_eof_in_unknown_parameter = 1344
code K.er_view_no_explain = 1345
code K.er_frm_unknown_type = 1346
code K.er_wrong_object = 1347
code K.er_nonupdateable_column = 1348
code K.er_view_select_derived = 1349
code K.er_view_select_clause = 1350
code K.er_view_select_variable = 1351
code K.er_view_select_tmptable = 1352
code K.er_view_wrong_list = 1353
code K.er_warn_view_merge = 1354
code K.er_warn_view_without_key = 1355
code K.er_view_invalid = 1356
code K.er_sp_no_drop_sp = 1357
code K.er_sp_goto_in_hndlr = 1358
code K.er_trg_already_exists = 1359
code K.er_trg_does_not_exist = 1360
code K.er_trg_on_view_or_temp_table = 1361
code K.er_trg_cant_change_row = 1362
code K.er_trg_no_such_row_in_trg = 1363
code K.er_no_default_for_field = 1364
code K.er_division_by_zer = 1365
code K.er_truncated_wrong_value_for_field = 1366
code K.er_illegal_value_for_type = 1367
code K.er_view_nonupd_check = 1368
code K.er_view_check_failed = 1369
code K.er_procaccess_denied_error = 1370
code K.er_relay_log_fail = 1371
code K.er_passwd_length = 1372
code K.er_unknown_target_binlog = 1373
code K.er_io_err_log_index_read = 1374
code K.er_binlog_purge_prohibited = 1375
code K.er_fseek_fail = 1376
code K.er_binlog_purge_fatal_err = 1377
code K.er_log_in_use = 1378
code K.er_log_purge_unknown_err = 1379
code K.er_relay_log_init = 1380
code K.er_no_binary_logging = 1381
code K.er_reserved_syntax = 1382
code K.er_wsas_failed = 1383
code K.er_diff_groups_proc = 1384
code K.er_no_group_for_proc = 1385
code K.er_order_with_proc = 1386
code K.er_logging_prohibit_changing_of = 1387
code K.er_no_file_mapping = 1388
code K.er_wrong_magic = 1389
code K.er_ps_many_param = 1390
code K.er_key_part_0 = 1391
code K.er_view_checksum = 1392
code K.er_view_multiupdate = 1393
code K.er_view_no_insert_field_list = 1394
code K.er_view_delete_merge_view = 1395
code K.er_cannot_user = 1396
code K.er_xaer_nota = 1397
code K.er_xaer_inval = 1398
code K.er_xaer_rmfail = 1399
code K.er_xaer_outside = 1400
code K.er_xaer_rmerr = 1401
code K.er_xa_rbrollback = 1402
code K.er_nonexisting_proc_grant = 1403
code K.er_proc_auto_grant_fail = 1404
code K.er_proc_auto_revoke_fail = 1405
code K.er_data_too_long = 1406
code K.er_sp_bad_sqlstate = 1407
code K.er_startup = 1408
code K.er_load_from_fixed_size_rows_to_var = 1409
code K.er_cant_create_user_with_grant = 1410
code K.er_wrong_value_for_type = 1411
code K.er_table_def_changed = 1412
code K.er_sp_dup_handler = 1413
code K.er_sp_not_var_arg = 1414
code K.er_sp_no_retset = 1415
code K.er_cant_create_geometry_object = 1416
code K.er_failed_routine_break_binlog = 1417
code K.er_binlog_unsafe_routine = 1418
code K.er_binlog_create_routine_need_super = 1419
code K.er_exec_stmt_with_open_cursor = 1420
code K.er_stmt_has_no_open_cursor = 1421
code K.er_commit_not_allowed_in_sf_or_trg = 1422
code K.er_no_default_for_view_field = 1423
code K.er_sp_no_recursion = 1424
code K.er_too_big_scale = 1425
code K.er_too_big_precision = 1426
code K.er_m_bigger_than_d = 1427
code K.er_wrong_lock_of_system_table = 1428
code K.er_connect_to_foreign_data_source = 1429
code K.er_query_on_foreign_data_source = 1430
code K.er_foreign_data_source_doesnt_exist = 1431
code K.er_foreign_data_string_invalid_cant_create = 1432
code K.er_foreign_data_string_invalid = 1433
code K.er_cant_create_federated_table = 1434
code K.er_trg_in_wrong_schema = 1435
code K.er_stack_overrun_need_more = 1436
code K.er_too_long_body = 1437
code K.er_warn_cant_drop_default_keycache = 1438
code K.er_too_big_displaywidth = 1439
code K.er_xaer_dupid = 1440
code K.er_datetime_function_overflow = 1441
code K.er_cant_update_used_table_in_sf_or_trg = 1442
code K.er_view_prevent_update = 1443
code K.er_ps_no_recursion = 1444
code K.er_sp_cant_set_autocommit = 1445
code K.er_malformed_definer = 1446
code K.er_view_frm_no_user = 1447
code K.er_view_other_user = 1448
code K.er_no_such_user = 1449
code K.er_forbid_schema_change = 1450
code K.er_row_is_referenced_2 = 1451
code K.er_no_referenced_row_2 = 1452
code K.er_sp_bad_var_shadow = 1453
code K.er_trg_no_definer = 1454
code K.er_old_file_format = 1455
code K.er_sp_recursion_limit = 1456
code K.er_sp_proc_table_corrupt = 1457
code K.er_sp_wrong_name = 1458
code K.er_table_needs_upgrade = 1459
code K.er_sp_no_aggregate = 1460
code K.er_max_prepared_stmt_count_reached = 1461
code K.er_view_recursive = 1462
code K.er_non_grouping_field_used = 1463
code K.er_table_cant_handle_spkeys = 1464
code K.er_no_triggers_on_system_schema = 1465
code K.er_removed_spaces = 1466
code K.er_autoinc_read_failed = 1467
code K.er_username = 1468
code K.er_hostname = 1469
code K.er_wrong_string_length = 1470
code K.er_non_insertable_table = 1471
code K.er_admin_wrong_mrg_table = 1472
code K.er_too_high_level_of_nesting_for_select = 1473
code K.er_name_becomes_empty = 1474
code K.er_ambiguous_field_term = 1475
code K.er_foreign_server_exists = 1476
code K.er_foreign_server_doesnt_exist = 1477
code K.er_illegal_ha_create_option = 1478
code K.er_partition_requires_values_error = 1479
code K.er_partition_wrong_values_error = 1480
code K.er_partition_maxvalue_error = 1481
code K.er_partition_subpartition_error = 1482
code K.er_partition_subpart_mix_error = 1483
code K.er_partition_wrong_no_part_error = 1484
code K.er_partition_wrong_no_subpart_error = 1485
code K.er_wrong_expr_in_partition_func_error = 1486
code K.er_no_const_expr_in_range_or_list_error = 1487
code K.er_field_not_found_part_error = 1488
code K.er_list_of_fields_only_in_hash_error = 1489
code K.er_inconsistent_partition_info_error = 1490
code K.er_partition_func_not_allowed_error = 1491
code K.er_partitions_must_be_defined_error = 1492
code K.er_range_not_increasing_error = 1493
code K.er_inconsistent_type_of_functions_error = 1494
code K.er_multiple_def_const_in_list_part_error = 1495
code K.er_partition_entry_error = 1496
code K.er_mix_handler_error = 1497
code K.er_partition_not_defined_error = 1498
code K.er_too_many_partitions_error = 1499
code K.er_subpartition_error = 1500
code K.er_cant_create_handler_file = 1501
code K.er_blob_field_in_part_func_error = 1502
code K.er_unique_key_need_all_fields_in_pf = 1503
code K.er_no_parts_error = 1504
code K.er_partition_mgmt_on_nonpartitioned = 1505
code K.er_foreign_key_on_partitioned = 1506
code K.er_drop_partition_non_existent = 1507
code K.er_drop_last_partition = 1508
code K.er_coalesce_only_on_hash_partition = 1509
code K.er_reorg_hash_only_on_same_n = 1510
code K.er_reorg_no_param_error = 1511
code K.er_only_on_range_list_partition = 1512
code K.er_add_partition_subpart_error = 1513
code K.er_add_partition_no_new_partition = 1514
code K.er_coalesce_partition_no_partition = 1515
code K.er_reorg_partition_not_exist = 1516
code K.er_same_name_partition = 1517
code K.er_no_binlog_error = 1518
code K.er_consecutive_reorg_partitions = 1519
code K.er_reorg_outside_range = 1520
code K.er_partition_function_failure = 1521
code K.er_part_state_error = 1522
code K.er_limited_part_range = 1523
code K.er_plugin_is_not_loaded = 1524
code K.er_wrong_value = 1525
code K.er_no_partition_for_given_value = 1526
code K.er_filegroup_option_only_once = 1527
code K.er_create_filegroup_failed = 1528
code K.er_drop_filegroup_failed = 1529
code K.er_tablespace_auto_extend_error = 1530
code K.er_wrong_size_number = 1531
code K.er_size_overflow_error = 1532
code K.er_alter_filegroup_failed = 1533
code K.er_binlog_row_logging_failed = 1534
code K.er_binlog_row_wrong_table_def = 1535
code K.er_binlog_row_rbr_to_sbr = 1536
code K.er_event_already_exists = 1537
code K.er_event_store_failed = 1538
code K.er_event_does_not_exist = 1539
code K.er_event_cant_alter = 1540
code K.er_event_drop_failed = 1541
code K.er_event_interval_not_positive_or_too_big = 1542
code K.er_event_ends_before_starts = 1543
code K.er_event_exec_time_in_the_past = 1544
code K.er_event_open_table_failed = 1545
code K.er_event_neither_m_expr_nor_m_at = 1546
code K.er_col_count_doesnt_match_corrupted = 1547
code K.er_cannot_load_from_table = 1548
code K.er_event_cannot_delete = 1549
code K.er_event_compile_error = 1550
code K.er_event_same_name = 1551
code K.er_event_data_too_long = 1552
code K.er_drop_index_fk = 1553
code K.er_warn_deprecated_syntax_with_ver = 1554
code K.er_cant_write_lock_log_table = 1555
code K.er_cant_lock_log_table = 1556
code K.er_foreign_duplicate_key = 1557
code K.er_col_count_doesnt_match_please_update = 1558
code K.er_temp_table_prevents_switch_out_of_rbr = 1559
code K.er_stored_function_prevents_switch_binlog_format = 1560
code K.er_ndb_cant_switch_binlog_format = 1561
code K.er_partition_no_temporary = 1562
code K.er_partition_const_domain_error = 1563
code K.er_partition_function_is_not_allowed = 1564
code K.er_ddl_log_error = 1565
code K.er_null_in_values_less_than = 1566
code K.er_wrong_partition_name = 1567
code K.er_cant_change_tx_isolation = 1568
code K.er_dup_entry_autoincrement_case = 1569
code K.er_event_modify_queue_error = 1570
code K.er_event_set_var_error = 1571
code K.er_partition_merge_error = 1572
code K.er_cant_activate_log = 1573
code K.er_rbr_not_available = 1574
code K.er_base64_decode_error = 1575
code K.er_event_recursion_forbidden = 1576
code K.er_events_db_error = 1577
code K.er_only_integers_allowed = 1578
code K.er_unsuported_log_engine = 1579
code K.er_bad_log_statement = 1580
code K.er_cant_rename_log_table = 1581
code K.er_wrong_paramcount_to_native_fct = 1582
code K.er_wrong_parameters_to_native_fct = 1583
code K.er_wrong_parameters_to_stored_fct = 1584
code K.er_native_fct_name_collision = 1585
code K.er_dup_entry_with_key_name = 1586
code K.er_binlog_purge_emfile = 1587
code K.er_event_cannot_create_in_the_past = 1588
code K.er_event_cannot_alter_in_the_past = 1589
code K.er_slave_incident = 1590
code K.er_no_partition_for_given_value_silent = 1591
code K.er_binlog_unsafe_statement = 1592
code K.er_slave_fatal_error = 1593
code K.er_slave_relay_log_read_failure = 1594
code K.er_slave_relay_log_write_failure = 1595
code K.er_slave_create_event_failure = 1596
code K.er_slave_master_com_failure = 1597
code K.er_binlog_logging_impossible = 1598
code K.er_view_no_creation_ctx = 1599
code K.er_view_invalid_creation_ctx = 1600
code K.er_sr_invalid_creation_ctx = 1601
code K.er_trg_corrupted_file = 1602
code K.er_trg_no_creation_ctx = 1603
code K.er_trg_invalid_creation_ctx = 1604
code K.er_event_invalid_creation_ctx = 1605
code K.er_trg_cant_open_table = 1606
code K.er_cant_create_sroutine = 1607
code K.er_unused_11 = 1608
code K.er_no_format_description_event_before_binlog_statement = 1609
code K.er_slave_corrupt_event = 1610
code K.er_load_data_invalid_column = 1611
code K.er_log_purge_no_file = 1612
code K.er_xa_rbtimeout = 1613
code K.er_xa_rbdeadlock = 1614
code K.er_need_reprepare = 1615
code K.er_delayed_not_supported = 1616
code K.warn_no_master_inf = 1617
code K.warn_option_ignored = 1618
code K.warn_plugin_delete_builtin = 1619
code K.warn_plugin_busy = 1620
code K.er_variable_is_readonly = 1621
code K.er_warn_engine_transaction_rollback = 1622
code K.er_slave_heartbeat_failure = 1623
code K.er_slave_heartbeat_value_out_of_range = 1624
code K.er_ndb_replication_schema_error = 1625
code K.er_conflict_fn_parse_error = 1626
code K.er_exceptions_write_error = 1627
code K.er_too_long_table_comment = 1628
code K.er_too_long_field_comment = 1629
code K.er_func_inexistent_name_collision = 1630
code K.er_database_name = 1631
code K.er_table_name = 1632
code K.er_partition_name = 1633
code K.er_subpartition_name = 1634
code K.er_temporary_name = 1635
code K.er_renamed_name = 1636
code K.er_too_many_concurrent_trxs = 1637
code K.warn_non_ascii_separator_not_implemented = 1638
code K.er_debug_sync_timeout = 1639
code K.er_debug_sync_hit_limit = 1640
code K.er_dup_signal_set = 1641
code K.er_signal_warn = 1642
code K.er_signal_not_found = 1643
code K.er_signal_exception = 1644
code K.er_resignal_without_active_handler = 1645
code K.er_signal_bad_condition_type = 1646
code K.warn_cond_item_truncated = 1647
code K.er_cond_item_too_long = 1648
code K.er_unknown_locale = 1649
code K.er_slave_ignore_server_ids = 1650
code K.er_query_cache_disabled = 1651
code K.er_same_name_partition_field = 1652
code K.er_partition_column_list_error = 1653
code K.er_wrong_type_column_value_error = 1654
code K.er_too_many_partition_func_fields_error = 1655
code K.er_maxvalue_in_values_in = 1656
code K.er_too_many_values_error = 1657
code K.er_row_single_partition_field_error = 1658
code K.er_field_type_not_allowed_as_partition_field = 1659
code K.er_partition_fields_too_long = 1660
code K.er_binlog_row_engine_and_stmt_engine = 1661
code K.er_binlog_row_mode_and_stmt_engine = 1662
code K.er_binlog_unsafe_and_stmt_engine = 1663
code K.er_binlog_row_injection_and_stmt_engine = 1664
code K.er_binlog_stmt_mode_and_row_engine = 1665
code K.er_binlog_row_injection_and_stmt_mode = 1666
code K.er_binlog_multiple_engines_and_self_logging_engine = 1667
code K.er_binlog_unsafe_limit = 1668
code K.er_binlog_unsafe_insert_delayed = 1669
code K.er_binlog_unsafe_system_table = 1670
code K.er_binlog_unsafe_autoinc_columns = 1671
code K.er_binlog_unsafe_udf = 1672
code K.er_binlog_unsafe_system_variable = 1673
code K.er_binlog_unsafe_system_function = 1674
code K.er_binlog_unsafe_nontrans_after_trans = 1675
code K.er_message_and_statement = 1676
code K.er_slave_conversion_failed = 1677
code K.er_slave_cant_create_conversion = 1678
code K.er_inside_transaction_prevents_switch_binlog_format = 1679
code K.er_path_length = 1680
code K.er_warn_deprecated_syntax_no_replacement = 1681
code K.er_wrong_native_table_structure = 1682
code K.er_wrong_perfschema_usage = 1683
code K.er_warn_i_s_skipped_table = 1684
code K.er_inside_transaction_prevents_switch_binlog_direct = 1685
code K.er_stored_function_prevents_switch_binlog_direct = 1686
code K.er_spatial_must_have_geom_col = 1687
code K.er_too_long_index_comment = 1688
code K.er_lock_aborted = 1689
code K.er_data_out_of_range = 1690
code K.er_wrong_spvar_type_in_limit = 1691
code K.er_binlog_unsafe_multiple_engines_and_self_logging_engine = 1692
code K.er_binlog_unsafe_mixed_statement = 1693
code K.er_inside_transaction_prevents_switch_sql_log_bin = 1694
code K.er_stored_function_prevents_switch_sql_log_bin = 1695
code K.er_failed_read_from_par_file = 1696
code K.er_values_is_not_int_type_error = 1697
code K.er_access_denied_no_password_error = 1698
code K.er_set_password_auth_plugin = 1699
code K.er_grant_plugin_user_exists = 1700
code K.er_truncate_illegal_fk = 1701
code K.er_plugin_is_permanent = 1702
code K.er_slave_heartbeat_value_out_of_range_min = 1703
code K.er_slave_heartbeat_value_out_of_range_max = 1704
code K.er_stmt_cache_full = 1705
code K.er_multi_update_key_conflict = 1706
code K.er_table_needs_rebuild = 1707
code K.warn_option_below_limit = 1708
code K.er_index_column_too_long = 1709
code K.er_error_in_trigger_body = 1710
code K.er_error_in_unknown_trigger_body = 1711
code K.er_index_corrupt = 1712
code K.er_undo_record_too_big = 1713
code K.er_binlog_unsafe_insert_ignore_select = 1714
code K.er_binlog_unsafe_insert_select_update = 1715
code K.er_binlog_unsafe_replace_select = 1716
code K.er_binlog_unsafe_create_ignore_select = 1717
code K.er_binlog_unsafe_create_replace_select = 1718
code K.er_binlog_unsafe_update_ignore = 1719
code K.er_plugin_no_uninstall = 1720
code K.er_plugin_no_install = 1721
code K.er_binlog_unsafe_write_autoinc_select = 1722
code K.er_binlog_unsafe_create_select_autoinc = 1723
code K.er_binlog_unsafe_insert_two_keys = 1724
code K.er_table_in_fk_check = 1725
code K.er_unsupported_engine = 1726
code K.er_binlog_unsafe_autoinc_not_first = 1727
code K.er_cannot_load_from_table_v2 = 1728
code K.er_master_delay_value_out_of_range = 1729
code K.er_only_fd_and_rbr_events_allowed_in_binlog_statement = 1730
code K.er_partition_exchange_different_option = 1731
code K.er_partition_exchange_part_table = 1732
code K.er_partition_exchange_temp_table = 1733
code K.er_partition_instead_of_subpartition = 1734
code K.er_unknown_partition = 1735
code K.er_tables_different_metadata = 1736
code K.er_row_does_not_match_partition = 1737
code K.er_binlog_cache_size_greater_than_max = 1738
code K.er_warn_index_not_applicable = 1739
code K.er_partition_exchange_foreign_key = 1740
code K.er_no_such_key_value = 1741
code K.er_rpl_info_data_too_long = 1742
code K.er_network_read_event_checksum_failure = 1743
code K.er_binlog_read_event_checksum_failure = 1744
code K.er_binlog_stmt_cache_size_greater_than_max = 1745
code K.er_cant_update_table_in_create_table_select = 1746
code K.er_partition_clause_on_nonpartitioned = 1747
code K.er_row_does_not_match_given_partition_set = 1748
code K.er_no_such_partition_unused = 1749
code K.er_change_rpl_info_repository_failure = 1750
code K.er_warning_not_complete_rollback_with_created_temp_table = 1751
code K.er_warning_not_complete_rollback_with_dropped_temp_table = 1752
code K.er_mts_feature_is_not_supported = 1753
code K.er_mts_updated_dbs_greater_max = 1754
code K.er_mts_cant_parallel = 1755
code K.er_mts_inconsistent_data = 1756
code K.er_fulltext_not_supported_with_partitioning = 1757
code K.er_da_invalid_condition_number = 1758
code K.er_insecure_plain_text = 1759
code K.er_insecure_change_master = 1760
code K.er_foreign_duplicate_key_with_child_info = 1761
code K.er_foreign_duplicate_key_without_child_info = 1762
code K.er_sqlthread_with_secure_slave = 1763
code K.er_table_has_no_ft = 1764
code K.er_variable_not_settable_in_sf_or_trigger = 1765
code K.er_variable_not_settable_in_transaction = 1766
code K.er_gtid_next_is_not_in_gtid_next_list = 1767
code K.er_cant_change_gtid_next_in_transaction_when_gtid_next_list_is_null = 1768
code K.er_set_statement_cannot_invoke_function = 1769
code K.er_gtid_next_cant_be_automatic_if_gtid_next_list_is_non_null = 1770
code K.er_skipping_logged_transaction = 1771
code K.er_malformed_gtid_set_specification = 1772
code K.er_malformed_gtid_set_encoding = 1773
code K.er_malformed_gtid_specification = 1774
code K.er_gno_exhausted = 1775
code K.er_bad_slave_auto_position = 1776
code K.er_auto_position_requires_gtid_mode_on = 1777
code K.er_cant_do_implicit_commit_in_trx_when_gtid_next_is_set = 1778
code K.er_gtid_mode_2_or_3_requires_disable_gtid_unsafe_statements_on = 1779
code K.er_gtid_mode_requires_binlog = 1780
code K.er_cant_set_gtid_next_to_gtid_when_gtid_mode_is_off = 1781
code K.er_cant_set_gtid_next_to_anonymous_when_gtid_mode_is_on = 1782
code K.er_cant_set_gtid_next_list_to_non_null_when_gtid_mode_is_off = 1783
code K.er_found_gtid_event_when_gtid_mode_is_off = 1784
code K.er_gtid_unsafe_non_transactional_table = 1785
code K.er_gtid_unsafe_create_select = 1786
code K.er_gtid_unsafe_create_drop_temporary_table_in_transaction = 1787
code K.er_gtid_mode_can_only_change_one_step_at_a_time = 1788
code K.er_master_has_purged_required_gtids = 1789
code K.er_cant_set_gtid_next_when_owning_gtid = 1790
code K.er_unknown_explain_format = 1791
code K.er_cant_execute_in_read_only_transaction = 1792
code K.er_too_long_table_partition_comment = 1793
code K.er_slave_configuration = 1794
code K.er_innodb_ft_limit = 1795
code K.er_innodb_no_ft_temp_table = 1796
code K.er_innodb_ft_wrong_docid_column = 1797
code K.er_innodb_ft_wrong_docid_index = 1798
code K.er_innodb_online_log_too_big = 1799
code K.er_unknown_alter_algorithm = 1800
code K.er_unknown_alter_lock = 1801
code K.er_mts_change_master_cant_run_with_gaps = 1802
code K.er_mts_recovery_failure = 1803
code K.er_mts_reset_workers = 1804
code K.er_col_count_doesnt_match_corrupted_v2 = 1805
code K.er_slave_silent_retry_transaction = 1806
code K.er_discard_fk_checks_running = 1807
code K.er_table_schema_mismatch = 1808
code K.er_table_in_system_tablespace = 1809
code K.er_io_read_error = 1810
code K.er_io_write_error = 1811
code K.er_tablespace_missing = 1812
code K.er_tablespace_exists = 1813
code K.er_tablespace_discarded = 1814
code K.er_internal_error = 1815
code K.er_innodb_import_error = 1816
code K.er_innodb_index_corrupt = 1817
code K.er_invalid_year_column_length = 1818
code K.er_not_valid_password = 1819
code K.er_must_change_password = 1820
code K.er_fk_no_index_child = 1821
code K.er_fk_no_index_parent = 1822
code K.er_fk_fail_add_system = 1823
code K.er_fk_cannot_open_parent = 1824
code K.er_fk_incorrect_option = 1825
code K.er_fk_dup_name = 1826
code K.er_password_format = 1827
code K.er_fk_column_cannot_drop = 1828
code K.er_fk_column_cannot_drop_child = 1829
code K.er_fk_column_not_null = 1830
code K.er_dup_index = 1831
code K.er_fk_column_cannot_change = 1832
code K.er_fk_column_cannot_change_child = 1833
code K.er_fk_cannot_delete_parent = 1834
code K.er_malformed_packet = 1835
code K.er_read_only_mode = 1836
code K.er_gtid_next_type_undefined_group = 1837
code K.er_variable_not_settable_in_sp = 1838
code K.er_cant_set_gtid_purged_when_gtid_mode_is_off = 1839
code K.er_cant_set_gtid_purged_when_gtid_executed_is_not_empty = 1840
code K.er_cant_set_gtid_purged_when_owned_gtids_is_not_empty = 1841
code K.er_gtid_purged_was_changed = 1842
code K.er_gtid_executed_was_changed = 1843
code K.er_binlog_stmt_mode_and_no_repl_tables = 1844
code K.er_alter_operation_not_supported = 1845
code K.er_alter_operation_not_supported_reason = 1846
code K.er_alter_operation_not_supported_reason_copy = 1847
code K.er_alter_operation_not_supported_reason_partition = 1848
code K.er_alter_operation_not_supported_reason_fk_rename = 1849
code K.er_alter_operation_not_supported_reason_column_type = 1850
code K.er_alter_operation_not_supported_reason_fk_check = 1851
code K.er_alter_operation_not_supported_reason_ignore = 1852
code K.er_alter_operation_not_supported_reason_nopk = 1853
code K.er_alter_operation_not_supported_reason_autoinc = 1854
code K.er_alter_operation_not_supported_reason_hidden_fts = 1855
code K.er_alter_operation_not_supported_reason_change_fts = 1856
code K.er_alter_operation_not_supported_reason_fts = 1857
code K.er_sql_slave_skip_counter_not_settable_in_gtid_mode = 1858
code K.er_dup_unknown_in_index = 1859
code K.er_ident_causes_too_long_path = 1860
code K.er_alter_operation_not_supported_reason_not_null = 1861
code K.er_must_change_password_login = 1862
code K.er_row_in_wrong_partition = 1863
code K.er_mts_event_bigger_pending_jobs_size_max = 1864
code K.er_innodb_no_ft_uses_parser = 1865
code K.er_binlog_logical_corruption = 1866
code K.er_warn_purge_log_in_use = 1867
code K.er_warn_purge_log_is_active = 1868
code K.er_auto_increment_conflict = 1869
code K.warn_on_blockhole_in_rbr = 1870
code K.er_slave_mi_init_repository = 1871
code K.er_slave_rli_init_repository = 1872
code K.er_access_denied_change_user_error = 1873
code K.er_innodb_read_only = 1874
code K.er_stop_slave_sql_thread_timeout = 1875
code K.er_stop_slave_io_thread_timeout = 1876
code K.er_table_corrupt = 1877
code K.er_temp_file_write_failure = 1878
code K.er_innodb_ft_aux_not_hex_id = 1879
code K.er_old_temporals_upgraded = 1880
code K.er_innodb_forced_recovery = 1881
code K.er_aes_invalid_iv = 1882
code K.er_plugin_cannot_be_uninstalled = 1883
code K.er_gtid_unsafe_binlog_splittable_statement_and_gtid_group = 1884
code K.er_slave_has_more_gtids_than_master = 1885
