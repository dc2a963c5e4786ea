-- ===== src/Hooks/MysqliNames.antt =====
-- src/zend_hook_mysqli.cc: the functions that are traced.
use opentelemetry_php_ext.Common.{List, [], ◌∷◌, Bytes, text}

-- `mysqliKeysCommands`
unfoldable pub mysqli_keys_commands : List Bytes
mysqli_keys_commands =
    text "mysqli_affected_rows"
    ∷ text "mysqli_autocommit"
    ∷ text "mysqli_change_user"
    ∷ text "mysqli_character_set_name"
    ∷ text "mysqli_close"
    ∷ text "mysqli_commit"
    ∷ text "mysqli_connect_errno"
    ∷ text "mysqli_connect_error"
    ∷ text "mysqli_connect"
    ∷ text "mysqli_data_seek"
    ∷ text "mysqli_debug"
    ∷ text "mysqli_dump_debug_info"
    ∷ text "mysqli_errno"
    ∷ text "mysqli_error_list"
    ∷ text "mysqli_error"
    ∷ text "mysqli_fetch_all"
    ∷ text "mysqli_fetch_array"
    ∷ text "mysqli_fetch_assoc"
    ∷ text "mysqli_fetch_field_direct"
    ∷ text "mysqli_fetch_field"
    ∷ text "mysqli_fetch_fields"
    ∷ text "mysqli_fetch_lengths"
    ∷ text "mysqli_fetch_object"
    ∷ text "mysqli_fetch_row"
    ∷ text "mysqli_field_count"
    ∷ text "mysqli_field_seek"
    ∷ text "mysqli_field_tell"
    ∷ text "mysqli_free_result"
    ∷ text "mysqli_get_charset"
    ∷ text "mysqli_get_client_info"
    ∷ text "mysqli_get_client_stats"
    ∷ text "mysqli_get_client_version"
    ∷ text "mysqli_get_connection_stats"
    ∷ text "mysqli_get_host_info"
    ∷ text "mysqli_get_proto_info"
    ∷ text "mysqli_get_server_info"
    ∷ text "mysqli_get_server_version"
    ∷ text "mysqli_info"
    ∷ text "mysqli_init"
    ∷ text "mysqli_insert_id"
    ∷ text "mysql_kill"
    ∷ text "mysqli_more_results"
    ∷ text "mysqli_multi_query"
    ∷ text "mysqli_next_result"
    ∷ text "mysqli_num_fields"
    ∷ text "mysqli_num_rows"
    ∷ text "mysqli_options"
    ∷ text "mysqli_ping"
    ∷ text "mysqli_prepare"
    ∷ text "mysqli_query"
    ∷ text "mysqli_real_connect"
    ∷ text "mysqli_real_escape_string"
    ∷ text "mysqli_real_query"
    ∷ text "mysqli_reap_async_query"
    ∷ text "mysqli_refresh"
    ∷ text "mysqli_rollback"
    ∷ text "mysqli_select_db"
    ∷ text "mysqli_set_charset"
    ∷ text "mysqli_set_local_infile_default"
    ∷ text "mysqli_set_local_infile_handler"
    ∷ text "mysqli_sqlstate"
    ∷ text "mysqli_ssl_set"
    ∷ text "mysqli_stat"
    ∷ text "mysqli_stmt_init"
    ∷ text "mysqli_store_result"
    ∷ text "mysqli_thread_id"
    ∷ text "mysqli_thread_safe"
    ∷ text "mysqli_use_result"
    ∷ text "mysqli_warning_count"
    ∷ []
