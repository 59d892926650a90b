-- ===== src/ErrorCodes/Arms/From1000.antt =====
-- mysql/src/errorcodes.rs: arms of `ErrorKind::from(x: u16)`, from 1000.
use opensrv.Common.{ℕ, List, [], ◌∷◌}
use opensrv.ErrorCodes.Kinds as K
use opensrv.ErrorCodes.Kinds.{ErrorKind}

abbrev pub arms_from_1000 : List (ℕ × ErrorKind)
arms_from_1000 =
    (1000, K.er_hashchk)
    ∷ (1001, K.er_nisamchk)
    ∷ (1002, K.er_no)
    ∷ (1003, K.er_yes)
    ∷ (1004, K.er_cant_create_file)
    ∷ (1005, K.er_cant_create_table)
    ∷ (1006, K.er_cant_create_db)
    ∷ (1007, K.er_db_create_exists)
    ∷ (1008, K.er_db_drop_exists)
    ∷ (1009, K.er_db_drop_delete)
    ∷ (1010, K.er_db_drop_rmdir)
    ∷ (1011, K.er_cant_delete_file)
    ∷ (1012, K.er_cant_find_system_rec)
    ∷ (1013, K.er_cant_get_stat)
    ∷ (1014, K.er_cant_get_wd)
    ∷ (1015, K.er_cant_lock)
    ∷ (1016, K.er_cant_open_file)
    ∷ (1017, K.er_file_not_found)
    ∷ (1018, K.er_cant_read_dir)
    ∷ (1019, K.er_cant_set_wd)
    ∷ (1020, K.er_checkread)
    ∷ (1021, K.er_disk_full)
    ∷ (1022, K.er_dup_key)
    ∷ (1023, K.er_error_on_close)
    ∷ (1024, K.er_error_on_read)
    ∷ (1025, K.er_error_on_rename)
    ∷ (1026, K.er_error_on_write)
    ∷ (1027, K.er_file_used)
    ∷ (1028, K.er_filsort_abort)
    ∷ (1029, K.er_form_not_found)
    ∷ (1030, K.er_get_errn)
    ∷ (1031, K.er_illegal_ha)
    ∷ (1032, K.er_key_not_found)
    ∷ (1033, K.er_not_form_file)
    ∷ (1034, K.er_not_keyfile)
    ∷ (1035, K.er_old_keyfile)
    ∷ (1036, K.er_open_as_readonly)
    ∷ (1037, K.er_outofmemory)
    ∷ (1038, K.er_out_of_sortmemory)
    ∷ (1039, K.er_unexpected_eof)
    ∷ (1040, K.er_con_count_error)
    ∷ (1041, K.er_out_of_resources)
    ∷ (1042, K.er_bad_host_error)
    ∷ (1043, K.er_handshake_error)
    ∷ (1044, K.er_dbaccess_denied_error)
    ∷ (1045, K.er_access_denied_error)
    ∷ (1046, K.er_no_db_error)
    ∷ (1047, K.er_unknown_com_error)
    ∷ (1048, K.er_bad_null_error)
    ∷ (1049, K.er_bad_db_error)
    ∷ (1050, K.er_table_exists_error)
    ∷ (1051, K.er_bad_table_error)
    ∷ (1052, K.er_non_uniq_error)
    ∷ (1053, K.er_server_shutdown)
    ∷ (1054, K.er_bad_field_error)
    ∷ (1055, K.er_wrong_field_with_group)
    ∷ (1056, K.er_wrong_group_field)
    ∷ (1057, K.er_wrong_sum_select)
    ∷ (1058, K.er_wrong_value_count)
    ∷ (1059, K.er_too_long_ident)
    ∷ (1060, K.er_dup_fieldname)
    ∷ (1061, K.er_dup_keyname)
    ∷ (1062, K.er_dup_entry)
    ∷ (1063, K.er_wrong_field_spec)
    ∷ (1064, K.er_parse_error)
    ∷ (1065, K.er_empty_query)
    ∷ (1066, K.er_nonuniq_table)
    ∷ (1067, K.er_invalid_default)
    ∷ (1068, K.er_multiple_pri_key)
    ∷ (1069, K.er_too_many_keys)
    ∷ (1070, K.er_too_many_key_parts)
    ∷ (1071, K.er_too_long_key)
    ∷ (1072, K.er_key_column_does_not_exits)
    ∷ (1073, K.er_blob_used_as_key)
    ∷ (1074, K.er_too_big_fieldlength)
    ∷ (1075, K.er_wrong_auto_key)
    ∷ (1076, K.er_ready)
    ∷ (1077, K.er_normal_shutdown)
    ∷ (1078, K.er_got_signal)
    ∷ (1079, K.er_shutdown_complete)
    ∷ (1080, K.er_forcing_close)
    ∷ (1081, K.er_ipsock_error)
    ∷ (1082, K.er_no_such_index)
    ∷ (1083, K.er_wrong_field_terminators)
    ∷ (1084, K.er_blobs_and_no_terminated)
    ∷ (1085, K.er_textfile_not_readable)
    ∷ (1086, K.er_file_exists_error)
    ∷ (1087, K.er_load_inf)
    ∷ (1088, K.er_alter_inf)
    ∷ (1089, K.er_wrong_sub_key)
    ∷ (1090, K.er_cant_remove_all_fields)
    ∷ (1091, K.er_cant_drop_field_or_key)
    ∷ (1092, K.er_insert_inf)
    ∷ (1093, K.er_update_table_used)
    ∷ (1094, K.er_no_such_thread)
    ∷ (1095, K.er_kill_denied_error)
    ∷ (1096, K.er_no_tables_used)
    ∷ (1097, K.er_too_big_set)
    ∷ (1098, K.er_no_unique_logfile)
    ∷ (1099, K.er_table_not_locked_for_write)
    ∷ (1100, K.er_table_not_locked)
    ∷ (1101, K.er_blob_cant_have_default)
    ∷ (1102, K.er_wrong_db_name)
    ∷ (1103, K.er_wrong_table_name)
    ∷ (1104, K.er_too_big_select)
    ∷ (1105, K.er_unknown_error)
    ∷ (1106, K.er_unknown_procedure)
    ∷ (1107, K.er_wrong_paramcount_to_procedure)
    ∷ (1108, K.er_wrong_parameters_to_procedure)
    ∷ (1109, K.er_unknown_table)
    ∷ (1110, K.er_field_specified_twice)
    ∷ (1111, K.er_invalid_group_func_use)
    ∷ (1112, K.er_unsupported_extension)
    ∷ (1113, K.er_table_must_have_columns)
    ∷ (1114, K.er_record_file_full)
    ∷ (1115, K.er_unknown_character_set)
    ∷ (1116, K.er_too_many_tables)
    ∷ (1117, K.er_too_many_fields)
    ∷ (1118, K.er_too_big_rowsize)
    ∷ (1119, K.er_stack_overrun)
    ∷ (1120, K.er_wrong_outer_join)
    ∷ (1121, K.er_null_column_in_index)
    ∷ (1122, K.er_cant_find_udf)
    ∷ (1123, K.er_cant_initialize_udf)
    ∷ (1124, K.er_udf_no_paths)
    ∷ (1125, K.er_udf_exists)
    ∷ (1126, K.er_cant_open_library)
    ∷ (1127, K.er_cant_find_dl_entry)
    ∷ (1128, K.er_function_not_defined)
    ∷ (1129, K.er_host_is_blocked)
    ∷ (1130, K.er_host_not_privileged)
    ∷ (1131, K.er_password_anonymous_user)
    ∷ (1132, K.er_password_not_allowed)
    ∷ (1133, K.er_password_no_match)
    ∷ (1134, K.er_update_inf)
    ∷ (1135, K.er_cant_create_thread)
    ∷ (1136, K.er_wrong_value_count_on_row)
    ∷ (1137, K.er_cant_reopen_table)
    ∷ (1138, K.er_invalid_use_of_null)
    ∷ (1139, K.er_regexp_error)
    ∷ (1140, K.er_mix_of_group_func_and_fields)
    ∷ (1141, K.er_nonexisting_grant)
    ∷ (1142, K.er_tableaccess_denied_error)
    ∷ (1143, K.er_columnaccess_denied_error)
    ∷ (1144, K.er_illegal_grant_for_table)
    ∷ (1145, K.er_grant_wrong_host_or_user)
    ∷ (1146, K.er_no_such_table)
    ∷ (1147, K.er_nonexisting_table_grant)
    ∷ []
